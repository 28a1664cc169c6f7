-- ===== src/Generator.antt =====
-- hack/generate-cluster-scope.go: the script that makes the sources of the cluster's kinds from those
-- of the kinds in a namespace: what it does to texts and paths.
pub mod Deletions
pub mod Comments
pub mod Backups
pub mod Walk
pub mod Undoing
pub mod Paths
pub mod Confinement
mod Tests
use mathlib.Core.Option
use provider_rabbitmq.Prelude.{
  ℕ, zero, suc, ◌+◌, ◌^◌, Bool, true, false, not, ◌&&◌, Option, none, some, List, [], ◌∷◌, ◌++◌,
  Str, codes, ltb, if◌then◌else◌,
}
use provider_rabbitmq.Client.Types.{Result, ok, err}
use provider_rabbitmq.Go.Decimal.{ℤ, pos, negsuc, atoi}
use provider_rabbitmq.Go.Split.{split, join}
use provider_rabbitmq.Go.Strings.{
  has_prefix, after_first, contains, has_suffix, trim_suffix, replace_all, replace_first,
  trim_space,
}

abbrev pub delete_annotation : Str
delete_annotation = codes "+cluster-scope:delete="

-- `num > 0`
abbrev positive : Option ℤ → Option ℕ
positive (some (pos (suc n))) = some (suc n)
positive _ = none

abbrev count_of : Option Str → Option ℕ
count_of none = none
count_of (some text) = positive (atoi (trim_space text))

-- How many lines the annotation of a line deletes after it; none without a valid annotation.
unfoldable pub deletes : Str → Option ℕ
deletes line = count_of (after_first delete_annotation line)

-- The loop over the lines: `i` is the index of the next line, `skip` how many lines `i += num` has
-- passed over. None if an index overflows, which panics.
unfoldable pub delete_lines : ℕ → ℕ → List Str → Option (List Str)
delete_lines i skip [] = some []
delete_lines i (suc skip) (line ∷ lines) = delete_lines (suc i) skip lines
delete_lines i zero (line ∷ lines) =
    let kept = Option.map (λ result. line ∷ result) (delete_lines (suc i) zero lines) in
    elim (deletes line) [
      | none ↦ kept
      | some num ↦ if ltb (i + num + 1) (2 ^ 63) then delete_lines (suc i) num lines else none
    ]

unfoldable pub process_delete_annotations : Str → Option Str
unfolding delete_lines
process_delete_annotations content =
    Option.map (λ result. join 10 result) (delete_lines zero zero (split 10 content))

abbrev pub generation_comment : Str
generation_comment = codes "// Code generated by hack/generate-cluster-scope.go - DO NOT EDIT."

unfoldable pub is_package : Str → Bool
is_package line = has_prefix (codes "package ") (trim_space line)

-- The comment and an empty line before the first package clause; none if there is no clause.
unfoldable pub add_comment_lines : List Str → Option (List Str)
unfolding is_package
add_comment_lines [] = none
add_comment_lines (line ∷ lines) =
    let later = Option.map (λ result. line ∷ result) (add_comment_lines lines) in
    if is_package line then some (generation_comment ∷ [] ∷ line ∷ lines) else later

abbrev pub commented : Str → Option (List Str) → Str
commented content none = content
commented content (some result) = join 10 result

unfoldable pub add_generation_comment : Str → Str
unfolding add_comment_lines
add_generation_comment content = commented content (add_comment_lines (split 10 content))

abbrev pub get_replacements : List (Str × Str)
get_replacements =
    (codes "m.crossplane.io", codes "crossplane.io")
    ∷ (codes "xpv2.ManagedResourceSpec", codes "xpv1.ResourceSpec")
    ∷ (codes "xpv1.NamespacedReference", codes "xpv1.Reference")
    ∷ (codes "xpv1.NamespacedSelector", codes "xpv1.Selector")
    ∷ (codes "xpv1.LocalSecretKeySelector", codes "xpv1.SecretKeySelector")
    ∷ (codes "xpv1.LocalSecretReference", codes "xpv1.SecretReference")
    ∷ (codes "reference.NewAPINamespacedResolver", codes "reference.NewAPIResolver")
    ∷ (codes "reference.NamespacedResolutionRequest", codes "reference.ResolutionRequest")
    ∷ (codes "reference.NamespacedResolutionResponse", codes "reference.ResolutionResponse")
    ∷ (codes "kubebuilder:resource:scope=Namespaced", codes "kubebuilder:resource:scope=Cluster")
    ∷ (codes "/namespaced/", codes "/cluster/")
    ∷ (codes "GetTokenValueFromLocalSecret", codes "GetTokenValueFromSecret")
    ∷ (codes "TestCreateLocalSecretKeySelector", codes "TestCreateSecretKeySelector")
    ∷ (codes "TestCreateLocalSecretReference", codes "TestCreateSecretReference")
    ∷ []

unfoldable pub replace_each : List (Str × Str) → Str → Str
replace_each [] content = content
replace_each ((old, new) ∷ order) content = replace_each order (replace_all old new content)

-- `order` is the order in which Go visits the map of replacements.
unfoldable pub transform_content : List (Str × Str) → Str → Option Str
unfolding add_generation_comment replace_each process_delete_annotations
transform_content order content =
    Option.map (λ processed. replace_each order (add_generation_comment processed))
      (process_delete_annotations content)

-- What `os.ReadFile` returns; a file that cannot be read is not skipped.
unfoldable pub should_skip_file : Result Str → Bool
should_skip_file (err e) = false
should_skip_file (ok content) = contains (codes "+cluster-scope:skip-file") content

-- Which file of the walk is transformed; the name and the path of an entry that is no directory.
unfoldable pub is_transformed : Str → Str → Result Str → Bool
unfolding should_skip_file
is_transformed name path read =
    not (has_prefix (codes "zz_") name)
    && (has_suffix (codes ".go") path && not (should_skip_file read))

unfoldable pub target_path : Str → Str
target_path path = replace_first (codes "namespaced") (codes "cluster") path

-- Which file `backupReferencers` and `restoreReferencers` rename, and its new name.
unfoldable pub backup_target : Str → Option Str
backup_target path =
    if has_suffix (codes "referencers.go") path && not (has_suffix (codes ".bak") path)
    then some (path ++ codes ".bak")
    else none

unfoldable pub restore_target : Str → Option Str
restore_target path =
    if has_suffix (codes "referencers.go.bak") path
    then some (trim_suffix (codes ".bak") path)
    else none
