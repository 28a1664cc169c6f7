-- ===== src/Go/Strings.antt =====
-- The functions of package strings that the generator of the cluster copies calls.
use provider_rabbitmq.Prelude.{
  ℕ, zero, suc, ◌+◌, ◌-◌, ◌≡◌, ◌≢◌, ◌↔◌, refl, sym, ap, ◌∙◌, Bool, true, false, ◌||◌, ◌&&◌, Option,
  none, some, [], ◌∷◌, ◌++◌, Str, arith, ltb, ◌==◌, if◌then◌else◌, str_eq, str_eq_iff, str_eq_refl,
  length, length-append, inl, inr, Bool-cases,
}

-- `strings.HasPrefix(s, prefix)`, with the text behind the prefix.
unfoldable pub cut_prefix : Str → Str → Option Str
cut_prefix [] s = some s
cut_prefix (c ∷ prefix) [] = none
cut_prefix (c ∷ prefix) (d ∷ s) = if c == d then cut_prefix prefix s else none

abbrev pub is_some : Option Str → Bool
is_some none = false
is_some (some s) = true

unfoldable pub has_prefix : Str → Str → Bool
unfolding cut_prefix
has_prefix prefix s = is_some (cut_prefix prefix s)

-- `strings.Index`, as the text behind the first occurrence.
abbrev first_of : Option Str → Option Str → Option Str
first_of none later = later
first_of (some s) later = some s

unfoldable pub after_first : Str → Str → Option Str
unfolding cut_prefix
after_first sub [] = cut_prefix sub []
after_first sub (c ∷ s) = first_of (cut_prefix sub (c ∷ s)) (after_first sub s)

unfoldable pub contains : Str → Str → Bool
unfolding after_first
contains sub s = is_some (after_first sub s)

unfoldable pub has_suffix : Str → Str → Bool
has_suffix suffix [] = str_eq suffix []
has_suffix suffix (c ∷ s) = str_eq (c ∷ s) suffix || has_suffix suffix s

unfoldable pub trim_suffix : Str → Str → Str
trim_suffix suffix [] = []
trim_suffix suffix (c ∷ s) =
    let rest = trim_suffix suffix s in if str_eq (c ∷ s) suffix then [] else c ∷ rest

-- `strings.ReplaceAll` of a text that is not empty: `skip` characters belong to an occurrence that
-- has been replaced.
unfoldable pub replace_from : ℕ → Str → Str → Str → Str
unfolding has_prefix
replace_from skip old new [] = []
replace_from (suc skip) old new (c ∷ s) = replace_from skip old new s
replace_from zero old new (c ∷ s) =
    let replaced = new ++ replace_from (length old - 1) old new s in
    let kept = c ∷ replace_from zero old new s in if has_prefix old (c ∷ s) then replaced else kept

unfoldable pub replace_all : Str → Str → Str → Str
unfolding replace_from
replace_all old new s = replace_from zero old new s

-- `strings.Replace(s, old, new, 1)`
unfoldable pub replace_first : Str → Str → Str → Str
unfolding cut_prefix
replace_first old new [] = elim (cut_prefix old []) [ none ↦ [] | some rest ↦ new ++ rest ]
replace_first old new (c ∷ s) =
    let kept = c ∷ replace_first old new s in
    elim (cut_prefix old (c ∷ s)) [ none ↦ kept | some rest ↦ new ++ rest ]

-- `unicode.IsSpace`
unfoldable pub is_space : ℕ → Bool
is_space c =
    (ltb 8 c && ltb c 14)
    || ((c == 32 || c == 0x85)
        || ((c == 0xa0 || c == 0x1680)
            || ((ltb 0x1fff c && ltb c 0x200b)
                || ((c == 0x2028 || c == 0x2029)
                    || (c == 0x202f || (c == 0x205f || c == 0x3000))))))

unfoldable pub trim_left : Str → Str
unfolding is_space
trim_left [] = []
trim_left (c ∷ s) = let rest = trim_left s in if is_space c then rest else c ∷ s

-- A space at the end goes if nothing but spaces follows it.
abbrev end_trimmed : ℕ → Str → Bool → Str
end_trimmed c [] true = []
end_trimmed c s _ = c ∷ s

unfoldable pub trim_right : Str → Str
unfolding is_space
trim_right [] = []
trim_right (c ∷ s) = end_trimmed c (trim_right s) (is_space c)

unfoldable pub trim_space : Str → Str
unfolding trim_left trim_right
trim_space s = trim_right (trim_left s)

has_suffix_self : (suffix : Str) → has_suffix suffix suffix ≡ true
unfolding has_suffix
has_suffix_self [] = str_eq_refl []
has_suffix_self (c ∷ suffix) = rw (str_eq_refl (c ∷ suffix)) refl

later_suffix : (b d : Bool) → d ≡ true → (b || d) ≡ true
later_suffix b d h = ground arith

has_suffix-append : (suffix r : Str) → has_suffix suffix (r ++ suffix) ≡ true
unfolding has_suffix
has_suffix-append suffix [] = has_suffix_self suffix
has_suffix-append suffix (c ∷ r) =
    later_suffix (str_eq (c ∷ (r ++ suffix)) suffix) _ (has_suffix-append suffix r)

ends : (suffix s : Str) → has_suffix suffix s ≡ true → (r : Str) × (s ≡ r ++ suffix)
unfolding has_suffix
ends suffix [] h = ([], sym ((str_eq_iff suffix []).0 h))
ends suffix (c ∷ s) h = elim (Bool-cases (str_eq (c ∷ s) suffix)) [
  | inl same ↦ ([], (str_eq_iff _ _).0 same)
  | inr other ↦ let (r, e) = ends suffix s (rw other at h) in (c ∷ r, ap (λ t. c ∷ t) e)
]

-- A text has a suffix exactly if it ends with it.
pub has_suffix_iff :
    (suffix s : Str) → (has_suffix suffix s ≡ true) ↔ ((r : Str) × (s ≡ r ++ suffix))
has_suffix_iff suffix s =
    (ends suffix s, (λ (r, e). ap (has_suffix suffix) e ∙ has_suffix-append suffix r))

trim_suffix_self : (suffix : Str) → trim_suffix suffix suffix ≡ []
unfolding trim_suffix
trim_suffix_self [] = refl
trim_suffix_self (c ∷ suffix) = rw (str_eq_refl (c ∷ suffix)) refl

longer : (c : ℕ) (r suffix : Str) → c ∷ (r ++ suffix) ≢ suffix
longer c r suffix e =
    let n : suc (length (r ++ suffix)) ≡ length suffix = ap (λ (s : Str). length s) e in
    let m : length (r ++ suffix) ≡ length r + length suffix = length-append r suffix in
    absurd (omega arith)

-- Trimming a suffix that is there leaves what stands before it.
pub trim_suffix-append : (suffix r : Str) → trim_suffix suffix (r ++ suffix) ≡ r
unfolding trim_suffix
trim_suffix-append suffix [] = trim_suffix_self suffix
trim_suffix-append suffix (c ∷ r) = elim (Bool-cases (str_eq (c ∷ (r ++ suffix)) suffix)) [
  | inl same ↦ absurd (longer c r suffix ((str_eq_iff _ _).0 same))
  | inr other ↦ rw other (ap (λ s. c ∷ s) (trim_suffix-append suffix r))
]
