-- ===== src/Generator/Comments.antt =====
-- Where `addGenerationComment` puts the comment.
use mathlib.Core.Option
use provider_rabbitmq.Prelude.{
  ◌≡◌, refl, ap, Bool, true, false, Option, none, some, List, [], ◌∷◌, ◌++◌, All, Str,
  if◌then◌else◌,
}
use provider_rabbitmq.Go.Split.{split, join}
use provider_rabbitmq.Generator.{
  is_package, generation_comment, add_comment_lines, commented, add_generation_comment,
}

-- The comment and an empty line stand before the first package clause; without one there is no comment.
abbrev pub LinesCommented : List Str → Option (List Str) → Type 0
LinesCommented lines none = All (λ line. is_package line ≡ false) lines
LinesCommented lines (some result) =
    (before : List Str) × (line : Str) × (after : List Str) × (lines ≡ before ++ (line ∷ after))
    × All (λ l. is_package l ≡ false) before
    × (is_package line ≡ true)
    × (result ≡ before ++ (generation_comment ∷ [] ∷ line ∷ after))

later-LinesCommented :
    (line : Str) (lines : List Str) (result : Option (List Str))
    → is_package line ≡ false
    → LinesCommented lines result
    → LinesCommented (line ∷ lines) (Option.map (λ rest. line ∷ rest) result)
later-LinesCommented line lines none p h = (p, h)
later-LinesCommented line lines (some result) p (before, l, after, e, none_before, clause, r) = (
  line ∷ before,
  l,
  after,
  ap (λ ls. line ∷ ls) e,
  (p, none_before),
  clause,
  ap (λ ls. line ∷ ls) r,
)

add_comment_lines-LinesCommented :
    (lines : List Str) → LinesCommented lines (add_comment_lines lines)
unfolding add_comment_lines
add_comment_lines-LinesCommented [] = tt
add_comment_lines-LinesCommented (line ∷ lines) =
    by (is_package line) refl (add_comment_lines-LinesCommented lines)
  where
    by :
        (b : Bool)
        → is_package line ≡ b
        → LinesCommented lines (add_comment_lines lines)
        → LinesCommented (line ∷ lines) (
            if b
            then some (generation_comment ∷ [] ∷ line ∷ lines)
            else Option.map (λ rest. line ∷ rest) (add_comment_lines lines))
    by true p h = ([], line, lines, refl, tt, p, refl)
    by false p h = later-LinesCommented line lines _ p h

abbrev pub Joined : Str → Str → Option (List Str) → Type 0
Joined content result none = result ≡ content
Joined content result (some lines) = result ≡ join 10 lines

abbrev pub Commented : Str → Str → Type 0
Commented content result =
    (lines : Option (List Str)) × LinesCommented (split 10 content) lines
    × Joined content result lines

-- The generation comment and an empty line are put before the first line that begins with a package
-- clause, and no other line changes; a content without such a line stays as it is.
pub add_generation_comment-Commented :
    (content : Str) → Commented content (add_generation_comment content)
unfolding add_generation_comment
add_generation_comment-Commented content =
    by _ (add_comment_lines-LinesCommented (split 10 content))
  where
    by :
        (lines : Option (List Str))
        → LinesCommented (split 10 content) lines
        → Commented content (commented content lines)
    by none h = (none, h, refl)
    by (some lines) h = (some lines, h, refl)
