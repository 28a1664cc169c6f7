-- ===== src/Generator/Tests.antt =====
-- The generator on small contents, and its theorems at concrete inputs.
use provider_rabbitmq.Prelude.{
  List, ◌≡◌, refl, none, some, Str, codes, str_eq, true, false, [], ◌∷◌, ◌++◌, All, inl, inr, arith,
}
use provider_rabbitmq.Go.Decimal.{atoi}
use provider_rabbitmq.Go.Strings.{
  replace_all, after_first, has_suffix, trim_space, has_prefix, cut_prefix, replace_first, contains,
}
use provider_rabbitmq.Client.Types.{ok}
use provider_rabbitmq.Handler.{final, done, failed}
use provider_rabbitmq.Go.Error.{new}
use provider_rabbitmq.Go.Split.{split, join}
use provider_rabbitmq.Generator.{
  get_replacements, deletes, process_delete_annotations, add_generation_comment, transform_content,
  backup_target, restore_target, should_skip_file, target_path,
}
use provider_rabbitmq.Generator.Undoing.{moved, undone, backup_undone}
use provider_rabbitmq.Generator.Comments.{Commented, add_generation_comment-Commented}
use provider_rabbitmq.Generator.Confinement.{Confined, generate_cluster_scope-Confined}
use provider_rabbitmq.Generator.Paths.{IsFolder}
use provider_rabbitmq.Generator.Walk.{
  mkdir_all, remove_all, write_file, entry, Files, generate_cluster_scope, join_path, prefixed,
  prefixed_after, clean_parts, process_entry, process_folder, process_folders, validate_and_setup,
  remove_folders, walk, change, transform_file, transform_source, run, rename, backup_entry,
  backup_referencers, restore_referencers, Visit, Log, handle_generate,
}
use provider_rabbitmq.Generator.Deletions.{Processed, process_delete_annotations-Processed}

-- An annotation that deletes the line after it.
abbrev source : Str
source =
    codes
      "// +cluster-scope:delete=1\nimport xpv2\npackage v1alpha1\nxpv2.ManagedResourceSpec /namespaced/ rabbitmq.m.crossplane.io"

transformed :
    transform_content get_replacements source
    ≡ some (
        codes
          "// Code generated by hack/generate-cluster-scope.go - DO NOT EDIT.\n\npackage v1alpha1\nxpv1.ResourceSpec /cluster/ rabbitmq.crossplane.io")
unfolding transform_content split deletes after_first atoi trim_space replace_all join
transformed = refl

-- An annotation of the largest number of 64 bits panics.
overflowing :
    process_delete_annotations (codes "// +cluster-scope:delete=9223372036854775807") ≡ none
unfolding process_delete_annotations split deletes after_first atoi trim_space
overflowing = refl

process_delete_annotations-Processed_example : Processed source (process_delete_annotations source)
process_delete_annotations-Processed_example = process_delete_annotations-Processed source

add_generation_comment-Commented_example : Commented source (add_generation_comment source)
add_generation_comment-Commented_example = add_generation_comment-Commented source

-- A folder with one file, which says in which package it is.
abbrev one_file : Files
one_file = record {
  answer = λ log c. ok tt;
  exists = λ log path. true;
  read_file = λ log path. ok (codes "package queue");
  walk_dir = λ log root.
      entry root (codes "apis") true
      ∷ entry (root ++ codes "/queue.go") (codes "queue.go") false
      ∷ [];
  format_source = λ text. ok text;
  replacements = λ log. get_replacements;
}

generated :
    final (generate_cluster_scope one_file (codes "apis" ∷ []) [])
    ≡ mkdir_all (codes "cluster")
      ∷ remove_all (codes "cluster/apis")
      ∷ mkdir_all (codes "cluster/apis")
      ∷ write_file (codes "cluster/apis/zz_queue.go") (
          codes
            "// Code generated by hack/generate-cluster-scope.go - DO NOT EDIT.\n\npackage queue")
      ∷ []
unfolding generate_cluster_scope process_folder process_folders process_entry validate_and_setup
    remove_folders walk change transform_file transform_source join_path clean_parts prefixed
    prefixed_after transform_content split deletes after_first atoi trim_space replace_all join
    has_suffix has_prefix cut_prefix should_skip_file target_path replace_first str_eq contains
generated = refl

apis-IsFolder : IsFolder (codes "apis")
unfolding str_eq
apis-IsFolder = record { no_slash = ground arith; no_gap = refl; no_dot = refl; no_dots = refl }

generate_cluster_scope-Confined_example :
    All Confined (final (generate_cluster_scope one_file (codes "apis" ∷ []) []))
generate_cluster_scope-Confined_example =
    generate_cluster_scope-Confined one_file
      (λ log root. (inl refl, (inr (codes "queue.go", refl), tt))) (codes "apis" ∷ [])
      (apis-IsFolder, tt)

no_folder :
    run one_file (codes "generator" ∷ codes "generate" ∷ []) []
    ≡ failed (new (codes "generate command requires at least one folder")) []
unfolding run handle_generate str_eq
no_folder = refl

-- A directory with referencers, whose files are renamed by the first change.
abbrev listing : List Visit
listing =
    entry (codes ".") (codes ".") true
    ∷ entry (codes "zz_referencers.go") (codes "zz_referencers.go") false
    ∷ entry (codes "queue.go") (codes "queue.go") false
    ∷ []

abbrev listed : Log → List Visit
listed [] = listing
listed (c ∷ log) = moved listing

abbrev with_referencers : Files
with_referencers = record one_file { walk_dir = λ log root. listed log }

backed_up :
    backup_referencers with_referencers []
    ≡ done tt (rename (codes "zz_referencers.go") (codes "zz_referencers.go.bak") ∷ [])
unfolding backup_referencers walk backup_entry backup_target change has_suffix str_eq
backed_up = refl

relisted :
    (log : Log) → backup_referencers with_referencers [] ≡ done tt log → listed log ≡ moved listing
relisted [] h = absurd (cc (backed_up, h))
relisted (c ∷ log) h = refl

backup_undone_example :
    (log : Log) × (backup_referencers with_referencers [] ≡ done tt log)
    × (restore_referencers with_referencers log ≡ done tt (log ++ undone log))
unfolding restore_target has_suffix str_eq
backup_undone_example =
    backup_undone with_referencers (λ log c. refl) listing (refl, (refl, (refl, tt))) refl relisted
