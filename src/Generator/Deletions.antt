-- ===== src/Generator/Deletions.antt =====
-- Which lines `processDeleteAnnotations` keeps.
use mathlib.Core.Option
use mathlib.Core.Path.{subst}
use provider_rabbitmq.Prelude.{
  ℕ, zero, suc, ◌+◌, ◌^◌, ◌≤◌, ◌≡◌, refl, sym, ap, ◌∙◌, Bool, true, false, Option, none, some, List,
  [], ◌∷◌, ◌++◌, All, Str, arith, ltb, length, if◌then◌else◌, Option-cases, inl, inr,
}
use provider_rabbitmq.Go.Split.{split, join, join-split}
use provider_rabbitmq.Generator.{deletes, delete_lines, process_delete_annotations}

abbrev pub drop : ℕ → List Str → List Str
drop zero lines = lines
drop (suc n) [] = []
drop (suc n) (line ∷ lines) = drop n lines

-- The lines that remain: a line without a valid annotation stays, and one with an annotation goes
-- with as many lines after it as the annotation says.
pub data Remains : List Str → List Str → Type 0 where
  no_lines : Remains [] []
  kept :
      {line : Str} {lines rest : List Str}
      → deletes line ≡ none
      → Remains lines rest
      → Remains (line ∷ lines) (line ∷ rest)
  deleted :
      {line : Str} {lines rest : List Str} (n : ℕ)
      → deletes line ≡ some n
      → Remains (drop n lines) rest
      → Remains (line ∷ lines) rest

-- A line whose annotation leads past the last index of 64 bits.
abbrev pub Overflows : ℕ → List Str → Type 0
Overflows i lines =
    (before : List Str) × (line : Str) × (after : List Str) × (n : ℕ) × (lines
      ≡ before ++ (line ∷ after))
    × (deletes line ≡ some n)
    × (2 ^ 63 ≤ i + length before + n + 1)

abbrev pub Deleted : ℕ → List Str → List Str → Option (List Str) → Type 0
Deleted i lines remaining none = Overflows i lines
Deleted i lines remaining (some rest) = Remains remaining rest

later-Overflows :
    (i : ℕ) (line : Str) (lines : List Str) → Overflows (suc i) lines → Overflows i (line ∷ lines)
later-Overflows i line lines (before, l, after, n, e, d, big) =
    (line ∷ before, l, after, n, ap (λ ls. line ∷ ls) e, d, omega arith)

-- The same for the lines from the next on.
later-Deleted :
    (i : ℕ) (line : Str) (lines remaining : List Str) (result : Option (List Str))
    → Deleted (suc i) lines remaining result
    → Deleted i (line ∷ lines) remaining result
later-Deleted i line lines remaining none h = later-Overflows i line lines h
later-Deleted i line lines remaining (some rest) h = h

kept-Deleted :
    (i : ℕ) (line : Str) (lines : List Str) (result : Option (List Str))
    → deletes line ≡ none
    → Deleted (suc i) lines lines result
    → Deleted i (line ∷ lines) (line ∷ lines) (Option.map (λ rest. line ∷ rest) result)
kept-Deleted i line lines none d h = later-Overflows i line lines h
kept-Deleted i line lines (some rest) d h = kept d h

annotated-Deleted :
    (i n : ℕ) (line : Str) (lines : List Str) (result : Option (List Str))
    → deletes line ≡ some n
    → Deleted (suc i) lines (drop n lines) result
    → Deleted i (line ∷ lines) (line ∷ lines) result
annotated-Deleted i n line lines none d h = later-Overflows i line lines h
annotated-Deleted i n line lines (some rest) d h = deleted n d h

kept_line :
    (i : ℕ) (line : Str) (lines : List Str)
    → deletes line ≡ none
    → delete_lines i zero (line ∷ lines)
      ≡ Option.map (λ rest. line ∷ rest) (delete_lines (suc i) zero lines)
unfolding delete_lines
kept_line i line lines d = rw (d, delete_lines) refl

deleted_line :
    (i n : ℕ) (line : Str) (lines : List Str)
    → deletes line ≡ some n
    → delete_lines i zero (line ∷ lines)
      ≡ (if ltb (i + n + 1) (2 ^ 63) then delete_lines (suc i) n lines else none)
unfolding delete_lines
deleted_line i n line lines d = rw (d, delete_lines) refl

-- The loop keeps the lines that remain, or it panics on an annotation that leads past the last index
-- of 64 bits; `skip` lines are passed over first.
pub delete_lines-Deleted :
    (i skip : ℕ) (lines : List Str) → Deleted i lines (drop skip lines) (delete_lines i skip lines)
unfolding delete_lines
delete_lines-Deleted i zero [] = no_lines
delete_lines-Deleted i (suc skip) [] = no_lines
delete_lines-Deleted i (suc skip) (line ∷ lines) =
    later-Deleted i line lines (drop skip lines) _ (delete_lines-Deleted (suc i) skip lines)
delete_lines-Deleted i zero (line ∷ lines) = elim (Option-cases (deletes line)) [
  | inl d ↦
      subst (Deleted i (line ∷ lines) (line ∷ lines)) (sym (kept_line i line lines d))
        (kept-Deleted i line lines _ d (delete_lines-Deleted (suc i) zero lines))
  | inr (n, d) ↦
      subst (Deleted i (line ∷ lines) (line ∷ lines)) (sym (deleted_line i n line lines d))
        (by n d (ltb (i + n + 1) (2 ^ 63)) refl (delete_lines-Deleted (suc i) n lines))
]
  where
    by :
        (n : ℕ)
        → deletes line ≡ some n
        → (fits : Bool) → ltb (i + n + 1) (2 ^ 63) ≡ fits
        → Deleted (suc i) lines (drop n lines) (delete_lines (suc i) n lines)
        → Deleted i
            (line ∷ lines)
            (line ∷ lines)
            (if fits then delete_lines (suc i) n lines else none)
    by n d true e h = annotated-Deleted i n line lines _ d h
    by n d false e h = ([], line, lines, n, refl, d, ground arith)

-- What the annotations make of a content: its remaining lines, joined.
abbrev pub Processed : Str → Option Str → Type 0
Processed content none = Overflows 0 (split 10 content)
Processed content (some processed) =
    (rest : List Str) × Remains (split 10 content) rest × (processed ≡ join 10 rest)

-- Processing a content keeps exactly the lines that remain, in order: a line without a valid
-- annotation stays, and one with an annotation goes with as many lines after it as the annotation
-- says; or it panics on an annotation that leads past the last index of 64 bits.
pub process_delete_annotations-Processed :
    (content : Str) → Processed content (process_delete_annotations content)
unfolding process_delete_annotations
process_delete_annotations-Processed content = by _ (delete_lines-Deleted 0 0 (split 10 content))
  where
    by :
        (result : Option (List Str))
        → Deleted 0 (split 10 content) (split 10 content) result
        → Processed content (Option.map (λ rest. join 10 rest) result)
    by none h = h
    by (some rest) h = (rest, h, refl)

unannotated_lines :
    (i : ℕ) (lines : List Str)
    → All (λ line. deletes line ≡ none) lines
    → delete_lines i zero lines ≡ some lines
unfolding delete_lines
unannotated_lines i [] all = refl
unannotated_lines i (line ∷ lines) (d, all) =
    kept_line i line lines d
    ∙ ap (λ result. Option.map (λ rest. line ∷ rest) result) (unannotated_lines (suc i) lines all)

-- A content none of whose lines has a valid annotation stays as it is.
pub unannotated_kept :
    (content : Str)
    → All (λ line. deletes line ≡ none) (split 10 content)
    → process_delete_annotations content ≡ some content
unfolding process_delete_annotations
unannotated_kept content all =
    ap (λ result. Option.map (λ rest. join 10 rest) result)
      (unannotated_lines zero (split 10 content) all)
    ∙ ap some (join-split 10 content)
