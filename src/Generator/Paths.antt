-- ===== src/Generator/Paths.antt =====
-- The paths that the script makes: those of folders, of their copies and of the copied files.
use provider_rabbitmq.Prelude.{
  ◌≡◌, refl, ap, ◌∙◌, ◌⊎◌, false, Option, none, some, List, [], ◌∷◌, ◌++◌, Str, codes, str_eq,
  Lacks, arith,
}
use provider_rabbitmq.Go.Split.{split, join, split-append, split_lacking}
use provider_rabbitmq.Go.Strings.{replace_first, cut_prefix}
use provider_rabbitmq.Generator.{target_path}
use provider_rabbitmq.Generator.Walk.{
  clean_parts, join_path, prefixed_after, prefixed, path_of, or_dot, or_prefixed,
}

-- The path of a directory or of something in it.
abbrev pub IsUnder : Str → Str → Type 0
IsUnder root path = (path ≡ root) ⊎ ((r : Str) × (path ≡ root ++ 47 ∷ r))

abbrev pub IsIn : Str → Str → Type 0
IsIn root path = (r : Str) × (path ≡ root ++ 47 ∷ r)

-- The name of a folder: one part of a path, not `.` or `..`.
pub record IsFolder (name : Str) : Type 0 where
  pub no_slash : Lacks 47 name
  pub no_gap : str_eq name [] ≡ false
  pub no_dot : str_eq name (codes ".") ≡ false
  pub no_dots : str_eq name (codes "..") ≡ false

kept_part :
    (kept : List Str) (name : Str) (parts : List Str)
    → IsFolder name
    → clean_parts kept (name ∷ parts) ≡ clean_parts (name ∷ kept) parts
unfolding clean_parts
kept_part kept name parts h = rw (h.no_gap, h.no_dot, h.no_dots) refl

cleaned :
    (parent folder : Str)
    → IsFolder parent
    → IsFolder folder
    → clean_parts [] (split 47 (parent ++ 47 ∷ folder)) ≡ folder ∷ parent ∷ []
unfolding clean_parts
cleaned parent folder p h =
    ap (clean_parts []) (
      split-append 47 parent folder p.no_slash
      ∙ ap (λ ps. parent ∷ ps) (split_lacking 47 folder h.no_slash))
    ∙ kept_part [] parent (folder ∷ []) p
    ∙ kept_part (parent ∷ []) folder [] h

-- A folder in a folder is joined with a slash.
pub join-IsFolder :
    (parent folder : Str)
    → IsFolder parent
    → IsFolder folder
    → join_path parent folder ≡ or_dot (parent ++ 47 ∷ folder)
unfolding join_path join
join-IsFolder parent folder p h =
    ap (λ parts. or_dot (join 47 (path_of [] parts))) (cleaned parent folder p h)

pub namespaced-IsFolder : IsFolder (codes "namespaced")
unfolding str_eq
namespaced-IsFolder = record {
  no_slash = ground arith;
  no_gap = refl;
  no_dot = refl;
  no_dots = refl;
}

pub cluster-IsFolder : IsFolder (codes "cluster")
unfolding str_eq
cluster-IsFolder = record { no_slash = ground arith; no_gap = refl; no_dot = refl; no_dots = refl }

pub target_path-IsIn :
    (path : Str) → IsIn (codes "namespaced") path → IsIn (codes "cluster") (target_path path)
unfolding target_path replace_first cut_prefix
target_path-IsIn path (r, e) = (r, ap target_path e)

prefixed_more :
    (p path later : Str)
    → prefixed_after path ≡ some later
    → prefixed_after (p ++ path) ≡ some (p ++ later)
unfolding prefixed_after
prefixed_more [] path later h = h
prefixed_more (c ∷ p) path later h = rw (prefixed_more p path later h) refl

prefixed_slash : (r : Str) → (t : Str) × (prefixed_after (47 ∷ r) ≡ some (47 ∷ t))
unfolding prefixed_after
prefixed_slash r = by (prefixed_after r) refl
  where
    by :
        (a : Option Str)
        → prefixed_after r ≡ a
        → (t : Str) × (prefixed_after (47 ∷ r) ≡ some (47 ∷ t))
    by none h = (codes "zz_" ++ r, rw h refl)
    by (some later) h = (later, rw h refl)

pub prefixed-IsIn :
    (path : Str) → IsIn (codes "cluster") path → IsIn (codes "cluster") (prefixed path)
unfolding prefixed
prefixed-IsIn path (r, e) =
    let (t, h) = prefixed_slash r in
    (t, ap prefixed e ∙ ap (or_prefixed _) (prefixed_more (codes "cluster") (47 ∷ r) (47 ∷ t) h))
