-- ===== src/Generator/Walk.antt =====
-- hack/generate-cluster-scope.go: the commands, which walk over directories, read files, and make,
-- remove, write and rename files.
use provider_rabbitmq.Prelude.{
  Bool, not, ◌&&◌, Option, none, some, List, [], ◌∷◌, ◌++◌, Str, codes, str_eq, ◌==◌, if◌then◌else◌,
}
use provider_rabbitmq.Client.Types.{Result, ok, err}
use provider_rabbitmq.Go.Error.{Error, new}
use provider_rabbitmq.Go.Split.{split, join}
use provider_rabbitmq.Go.Strings.{has_prefix, has_suffix}
use provider_rabbitmq.Handler.{M, done, failed, ◌>>=◌, ◌>>◌, pure, fail, deref, wrapping}
use provider_rabbitmq.Generator.{
  transform_content, should_skip_file, target_path, backup_target, restore_target,
}

-- What the script changes.
pub data Change : Type 0 where
  mkdir_all : Str → Change
  remove_all : Str → Change
  write_file : Str → Str → Change
  rename : Str → Str → Change

abbrev pub Log : Type 0
Log = List Change

-- What `filepath.WalkDir` calls its function with: the path, the name and whether it is a directory,
-- or an error.
pub data Visit : Type 0 where
  entry : Str → Str → Bool → Visit
  refused : Error → Visit

-- The files after the changes of a log and the libraries: what changes are refused, what is there,
-- the visits of a walk, the formatter of Go, and the order of a loop over the replacements.
pub record Files : Type 0 where
  pub answer : Log → Change → Result (Unit {0})
  pub exists : Log → Str → Bool
  pub read_file : Log → Str → Result Str
  pub walk_dir : Log → Str → List Visit
  pub format_source : Str → Result Str
  pub replacements : Log → List (Str × Str)

-- The loop of `filepath.Clean` over the parts of a path that is not rooted, with the parts that it
-- keeps, the last one first.
abbrev drop_part : List Str → List Str
drop_part [] = codes ".." ∷ []
drop_part (p ∷ ps) = if str_eq p (codes "..") then codes ".." ∷ p ∷ ps else ps

unfoldable pub clean_parts : List Str → List Str → List Str
clean_parts kept [] = kept
clean_parts kept (p ∷ ps) =
    let skipped = clean_parts kept ps in
    let up = clean_parts (drop_part kept) ps in
    let more = clean_parts (p ∷ kept) ps in
    if str_eq p []
    then skipped
    else if str_eq p (codes ".")
    then skipped
    else if str_eq p (codes "..")
    then up
    else more

abbrev pub path_of : List Str → List Str → List Str
path_of parts [] = parts
path_of parts (p ∷ kept) = path_of (p ∷ parts) kept

abbrev pub or_dot : Str → Str
or_dot [] = codes "."
or_dot (c ∷ path) = c ∷ path

-- `filepath.Join(parent, child)` of a parent that is not empty and not rooted.
unfoldable pub join_path : Str → Str → Str
unfolding clean_parts
join_path parent child =
    or_dot (join 47 (path_of [] (clean_parts [] (split 47 (parent ++ 47 ∷ child)))))

-- The name after the last slash with `zz_` before it; none without a slash.
unfoldable pub prefixed_after : Str → Option Str
prefixed_after [] = none
prefixed_after (c ∷ path) = elim (prefixed_after path) [
  | some later ↦ some (c ∷ later)
  | none ↦ if c == 47 then some (c ∷ (codes "zz_" ++ path)) else none
]

-- `filepath.Join(dir, "zz_"+filename)` for the parts of a path that is clean.
abbrev pub or_prefixed : Str → Option Str → Str
or_prefixed path none = codes "zz_" ++ path
or_prefixed path (some later) = later

unfoldable pub prefixed : Str → Str
unfolding prefixed_after
prefixed path = or_prefixed path (prefixed_after path)

-- The text as it was if it cannot be formatted.
abbrev pub formatted_or : Str → Result Str → Str
formatted_or transformed (ok formatted) = formatted
formatted_or transformed (err e) = transformed

module _ (os : Files) where
  abbrev pub answered : Result (Unit {0}) → M Log (Unit {0})
  answered (ok u) log = done u log
  answered (err e) log = failed e log

  unfoldable pub change : Change → M Log (Unit {0})
  change c log = answered (os.answer log c) (log ++ (c ∷ []))

  abbrev pub read_or_fail : Result Str → M Log Str
  read_or_fail (ok content) = pure content
  read_or_fail (err e) = fail e

  -- `transformFile` behind `os.ReadFile`.
  abbrev pub transform_read : Str → Str → Result Str → List (Str × Str) → M Log (Unit {0})
  transform_read src_path dst_path read order = do
    content ← wrapping (codes "failed to read " ++ src_path) (read_or_fail read)
    transformed ← deref (transform_content order content)
    change (write_file dst_path (formatted_or transformed (os.format_source transformed)))

  unfoldable pub transform_file : Str → Str → M Log (Unit {0})
  transform_file src_path dst_path log =
      transform_read src_path dst_path (os.read_file log src_path) (os.replacements log) log

  unfoldable pub transform_source : Str → M Log (Unit {0})
  transform_source path log =
      if has_suffix (codes ".go") path && not (should_skip_file (os.read_file log path))
      then transform_file path (prefixed (target_path path)) log
      else done tt log

  -- The function that `processFolder` passes to the walk.
  unfoldable pub process_entry : Visit → M Log (Unit {0})
  process_entry (refused e) = fail e
  process_entry (entry path name is_dir) =
      if has_prefix (codes "zz_") name
      then pure tt
      else if is_dir
      then change (mkdir_all (target_path path))
      else transform_source path

  -- A walk ends with the first error.
  unfoldable pub walk : (Visit → M Log (Unit {0})) → List Visit → M Log (Unit {0})
  walk f [] = pure tt
  walk f (v ∷ visits) = f v >> walk f visits

  -- A folder that does not exist is skipped with a warning.
  unfoldable pub process_folder : Str → M Log (Unit {0})
  process_folder folder log =
      if os.exists log (join_path (codes "namespaced") folder)
      then walk process_entry (os.walk_dir log (join_path (codes "namespaced") folder)) log
      else done tt log

  -- `os.RemoveAll` does not fail where nothing is there, so every error of it ends the script.
  unfoldable pub remove_folders : List Str → M Log (Unit {0})
  remove_folders [] = pure tt
  remove_folders (folder ∷ folders) =
      wrapping (codes "failed to remove cluster folder " ++ join_path (codes "cluster") folder)
        (change (remove_all (join_path (codes "cluster") folder)))
      >> remove_folders folders

  unfoldable pub validate_and_setup : List Str → M Log (Unit {0})
  validate_and_setup folders log =
      if os.exists log (codes "namespaced")
      then (wrapping (codes "failed to create cluster directory")
              (change (mkdir_all (codes "cluster")))
            >> remove_folders folders)
          log
      else failed (new (codes "namespaced directory does not exist at namespaced")) log

  unfoldable pub process_folders : List Str → M Log (Unit {0})
  process_folders [] = pure tt
  process_folders (folder ∷ folders) =
      wrapping (codes "failed to process folder " ++ folder) (process_folder folder)
      >> process_folders folders

  unfoldable pub generate_cluster_scope : List Str → M Log (Unit {0})
  generate_cluster_scope folders = validate_and_setup folders >> process_folders folders

  -- The functions of the two other commands, which pass over an entry that cannot be read.
  abbrev pub renamed : Str → Option Str → M Log (Unit {0})
  renamed path none = pure tt
  renamed path (some target) = change (rename path target)

  unfoldable pub backup_entry : Visit → M Log (Unit {0})
  backup_entry (refused e) = pure tt
  backup_entry (entry path name is_dir) = renamed path (backup_target path)

  unfoldable pub restore_entry : Visit → M Log (Unit {0})
  restore_entry (refused e) = pure tt
  restore_entry (entry path name is_dir) = renamed path (restore_target path)

  unfoldable pub backup_referencers : M Log (Unit {0})
  backup_referencers log = walk backup_entry (os.walk_dir log (codes ".")) log

  unfoldable pub restore_referencers : M Log (Unit {0})
  restore_referencers log = walk restore_entry (os.walk_dir log (codes ".")) log

  -- The commands. An error is printed, and the process exits with status 1.
  unfoldable pub handle_generate : List Str → M Log (Unit {0})
  handle_generate [] = fail (new (codes "generate command requires at least one folder"))
  handle_generate (folder ∷ folders) = generate_cluster_scope (folder ∷ folders)

  abbrev pub run_command : Str → List Str → M Log (Unit {0})
  run_command name args =
      if str_eq name (codes "generate")
      then handle_generate args
      else if str_eq name (codes "backup-referencers")
      then backup_referencers
      else if str_eq name (codes "restore-referencers")
      then restore_referencers
      else fail (new (codes "Unknown command: " ++ name))

  -- `main` on `os.Args`, the name of the program first.
  unfoldable pub run : List Str → M Log (Unit {0})
  run (program ∷ name ∷ args) = run_command name args
  run (program ∷ []) = fail (new (codes "Usage"))
  run [] = fail (new (codes "Usage"))
