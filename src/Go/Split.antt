-- ===== src/Go/Split.antt =====
-- `strings.Split` at a separator of one character.
use provider_rabbitmq.Prelude.{
  ℕ, ◌≡◌, ◌≢◌, refl, sym, ap, ◌∙◌, ==_iff, inl, inr, Bool-cases, List, [], ◌∷◌, ◌++◌, arith, Str,
  ◌==◌, if◌then◌else◌, Lacks,
}

-- The first part gains a character.
extend : ℕ → List Str → List Str
extend c [] = (c ∷ []) ∷ []
extend c (p ∷ ps) = (c ∷ p) ∷ ps

-- At least one part, also for the empty text.
unfoldable pub split : ℕ → Str → List Str
unfolding extend
split sep [] = [] ∷ []
split sep (c ∷ s) = let rest = split sep s in if c == sep then [] ∷ rest else extend c rest

-- Text before the first separator is the first part.
pub split-append : (sep : ℕ) (p s : Str) → Lacks sep p → split sep (p ++ sep ∷ s) ≡ p ∷ split sep s
unfolding split
split-append sep [] s h = ground arith
split-append sep (c ∷ p) s h = ground (arith, split-append sep p s h.1)

-- A text without the separator is one part.
pub split_lacking : (sep : ℕ) (p : Str) → Lacks sep p → split sep p ≡ p ∷ []
unfolding split
split_lacking sep [] h = refl
split_lacking sep (c ∷ p) h = ground (arith, split_lacking sep p h.1)

-- `strings.Join` with a separator of one character.
unfoldable pub join : ℕ → List Str → Str
join sep [] = []
join sep (p ∷ []) = p
join sep (p ∷ q ∷ ps) = p ++ sep ∷ join sep (q ∷ ps)

join-extend : (sep c : ℕ) (ps : List Str) → join sep (extend c ps) ≡ c ∷ join sep ps
unfolding join extend
join-extend sep c [] = refl
join-extend sep c (p ∷ []) = refl
join-extend sep c (p ∷ q ∷ ps) = refl

extend_not_empty : (c : ℕ) (ps : List Str) → extend c ps ≢ []
unfolding extend
extend_not_empty c [] h = absurd (cc)
extend_not_empty c (p ∷ ps) h = absurd (cc)

split_not_empty : (sep : ℕ) (s : Str) → split sep s ≢ []
unfolding split
split_not_empty sep [] h = absurd (cc)
split_not_empty sep (c ∷ s) h = elim (Bool-cases (c == sep)) [
  | inl same ↦ absurd (cc (rw same at h))
  | inr other ↦ extend_not_empty c (split sep s) (rw other at h)
]

join-empty_part : (sep : ℕ) (ps : List Str) → ps ≢ [] → join sep ([] ∷ ps) ≡ sep ∷ join sep ps
unfolding join
join-empty_part sep [] h = absurd (h refl)
join-empty_part sep (p ∷ ps) h = refl

-- Joining what a text was split into gives the text.
pub join-split : (sep : ℕ) (s : Str) → join sep (split sep s) ≡ s
unfolding join split
join-split sep [] = refl
join-split sep (c ∷ s) = elim (Bool-cases (c == sep)) [
  | inl same ↦ rw same (
      join-empty_part sep (split sep s) (split_not_empty sep s)
      ∙ ap (λ t. sep ∷ t) (join-split sep s)
      ∙ ap (λ d. d ∷ s) (sym ((==_iff c sep).0 same)))
  | inr other ↦ rw other (join-extend sep c (split sep s) ∙ ap (λ t. c ∷ t) (join-split sep s))
]
