-- ===== src/Generator/Confinement.antt =====
-- That the script writes nothing outside the directory of the cluster's kinds.
use provider_rabbitmq.Prelude.{
  refl, inl, inr, Bool, true, false, not, ◌&&◌, Option, none, some, List, [], ◌∷◌, ◌++◌, All,
  All-append, Str, codes, if◌then◌else◌,
}
use mathlib.Core.Path.{subst}
use provider_rabbitmq.Client.Types.{Result, ok, err}
use provider_rabbitmq.Go.Error.{Error, new}
use provider_rabbitmq.Go.Strings.{has_prefix, has_suffix}
use provider_rabbitmq.Handler.{
  M, Run, done, failed, panicked, final, ◌>>=◌, pure, fail, deref, wrapping,
}
use provider_rabbitmq.Generator.{transform_content, should_skip_file, target_path}
use provider_rabbitmq.Generator.Walk.{
  Change, mkdir_all, remove_all, write_file, rename, Log, Visit, entry, refused, Files, answered,
  join_path, prefixed, formatted_or, change, read_or_fail, transform_read, transform_file,
  transform_source, process_entry, walk, process_folder, remove_folders, validate_and_setup,
  process_folders, generate_cluster_scope,
}
use provider_rabbitmq.Generator.Paths.{
  IsUnder, IsIn, IsFolder, join-IsFolder, namespaced-IsFolder, cluster-IsFolder, target_path-IsIn,
  prefixed-IsIn,
}

-- A change that makes a directory, removes something or writes a file, under `cluster`.
abbrev pub Confined : Change → Type 0
Confined (mkdir_all path) = IsUnder (codes "cluster") path
Confined (remove_all path) = IsIn (codes "cluster") path
Confined (write_file path content) = IsIn (codes "cluster") path
Confined (rename old target) = ⊥

abbrev pub IsVisitUnder : Str → Visit → Type 0
IsVisitUnder root (entry path name is_dir) = IsUnder root path
IsVisitUnder root (refused e) = Unit

-- A run keeps the log confined, however it ends.
record Keeps {A : Type 0} (m : M Log A) : Type 0 where
  kept : (log : Log) → All Confined log → All Confined (final (m log))

bind-Keeps :
    {A B : Type 0} {m : M Log A} {f : A → M Log B}
    → Keeps m
    → ((a : A) → Keeps (f a))
    → Keeps (m >>= f)
bind-Keeps {A} {B} {m} {f} keeps next = record { kept = λ log h. by (m log) log (keeps.kept log h) }
  where
    by :
        (run : Run Log A) (log : Log)
        → All Confined (final run)
        → All Confined (final (((λ _. run) >>= f) log))
    by (done a log') log h = (next a).kept log' h
    by (failed e log') log h = h
    by (panicked log') log h = h

wrapping-Keeps : {A : Type 0} (message : Str) {m : M Log A} → Keeps m → Keeps (wrapping message m)
wrapping-Keeps {A} message {m} keeps = record { kept = λ log h. by (m log) log (keeps.kept log h) }
  where
    by :
        (run : Run Log A) (log : Log)
        → All Confined (final run)
        → All Confined (final (wrapping message (λ _. run) log))
    by (done a log') log h = h
    by (failed e log') log h = h
    by (panicked log') log h = h

pure-Keeps : {A : Type 0} (a : A) → Keeps (pure a)
pure-Keeps a = record { kept = λ log h. h }

fail-Keeps : {A : Type 0} (e : Error) → Keeps (fail {A = A} e)
fail-Keeps e = record { kept = λ log h. h }

deref-Keeps : (a : Option Str) → Keeps (deref a)
deref-Keeps none = record { kept = λ log h. h }
deref-Keeps (some s) = pure-Keeps s

if_kept :
    (b : Bool) {m k : M Log (Unit {0})} (log : Log)
    → Keeps m
    → Keeps k
    → All Confined log
    → All Confined (final (if b then m log else k log))
if_kept true log hm hk h = hm.kept log h
if_kept false log hm hk h = hk.kept log h

module _ (os : Files) where
  change-Keeps : (c : Change) → Confined c → Keeps (change os c)
  unfolding change
  change-Keeps c confined = record { kept = λ log h. by log (os.answer log c) h }
    where
      by :
          (log : Log) (a : Result (Unit {0}))
          → All Confined log
          → All Confined (final (answered os a (log ++ (c ∷ []))))
      by log (ok u) h = All-append Confined log (c ∷ []) h (confined, tt)
      by log (err e) h = All-append Confined log (c ∷ []) h (confined, tt)

  read-Keeps : (r : Result Str) → Keeps (read_or_fail os r)
  read-Keeps (ok content) = pure-Keeps content
  read-Keeps (err e) = record { kept = λ log h. h }

  transform_file-Keeps :
      (src_path dst_path : Str)
      → IsIn (codes "cluster") dst_path
      → Keeps (transform_file os src_path dst_path)
  unfolding transform_file
  transform_file-Keeps src_path dst_path under = record {
    kept = λ log h. (by (os.read_file log src_path) (os.replacements log)).kept log h;
  }
    where
      by :
          (read : Result Str) (order : List (Str × Str))
          → Keeps (transform_read os src_path dst_path read order)
      by read order =
          bind-Keeps (wrapping-Keeps (codes "failed to read " ++ src_path) (read-Keeps read))
            (λ content. bind-Keeps (deref-Keeps (transform_content order content)) (λ transformed.
              change-Keeps
                (write_file dst_path (formatted_or transformed (os.format_source transformed)))
                under))

  transform_source-Keeps :
      (path : Str) → IsIn (codes "cluster") (target_path path) → Keeps (transform_source os path)
  unfolding transform_source
  transform_source-Keeps path under = record {
    kept = λ log h.
        if_kept (has_suffix (codes ".go") path && not (should_skip_file (os.read_file log path)))
          log (transform_file-Keeps path (prefixed (target_path path)) (prefixed-IsIn _ under))
          (pure-Keeps tt) h;
  }

  process_entry-Keeps :
      (folder : Str) (v : Visit)
      → IsVisitUnder (codes "namespaced" ++ 47 ∷ folder) v
      → Keeps (process_entry os v)
  unfolding process_entry
  process_entry-Keeps folder (refused e) under = record { kept = λ log h. h }
  process_entry-Keeps folder (entry path name is_dir) under =
      let target : IsIn (codes "cluster") (target_path path) =
        target_path-IsIn path (inside under) in
      by (has_prefix (codes "zz_") name) is_dir
        (change-Keeps (mkdir_all (target_path path)) (inr target))
        (transform_source-Keeps path target)
    where
      inside : IsUnder (codes "namespaced" ++ 47 ∷ folder) path → IsIn (codes "namespaced") path
      inside (inl e) = (folder, e)
      inside (inr (r, e)) = (folder ++ 47 ∷ r, e)

      by :
          (b is_dir : Bool) {m k : M Log (Unit {0})}
          → Keeps m
          → Keeps k
          → Keeps (if b then pure tt else if is_dir then m else k)
      by true d hm hk = pure-Keeps tt
      by false true hm hk = hm
      by false false hm hk = hk

  walk-Keeps :
      (folder : Str) (visits : List Visit)
      → All (IsVisitUnder (codes "namespaced" ++ 47 ∷ folder)) visits
      → Keeps (walk os (process_entry os) visits)
  unfolding walk
  walk-Keeps folder [] under = pure-Keeps tt
  walk-Keeps folder (v ∷ visits) (hv, all) =
      bind-Keeps (process_entry-Keeps folder v hv) (λ _. walk-Keeps folder visits all)

  remove_folders-Keeps :
      (folders : List Str) → All IsFolder folders → Keeps (remove_folders os folders)
  unfolding remove_folders
  remove_folders-Keeps [] h = pure-Keeps tt
  remove_folders-Keeps (folder ∷ folders) (h, all) =
      bind-Keeps
        (wrapping-Keeps _ (
          change-Keeps (remove_all (join_path (codes "cluster") folder))
            (folder, join-IsFolder (codes "cluster") folder cluster-IsFolder h)))
        (λ _. remove_folders-Keeps folders all)

  validate_and_setup-Keeps :
      (folders : List Str) → All IsFolder folders → Keeps (validate_and_setup os folders)
  unfolding validate_and_setup
  validate_and_setup-Keeps folders all = record {
    kept = λ log h.
        if_kept (os.exists log (codes "namespaced")) log
          (bind-Keeps (wrapping-Keeps _ (change-Keeps (mkdir_all (codes "cluster")) (inl refl)))
            (λ _. remove_folders-Keeps folders all))
          (fail-Keeps (new (codes "namespaced directory does not exist at namespaced"))) h;
  }

  -- A walk visits its root and what is in it.
  abbrev pub WalkLaw : Type 0
  WalkLaw = (log : Log) (root : Str) → All (IsVisitUnder root) (os.walk_dir log root)

  module _ (law : WalkLaw) where
    process_folder-Keeps : (folder : Str) → IsFolder folder → Keeps (process_folder os folder)
    unfolding process_folder
    process_folder-Keeps folder h = record {
      kept = λ log kept.
          if_kept (os.exists log (join_path (codes "namespaced") folder)) log
            (walk-Keeps folder (os.walk_dir log (join_path (codes "namespaced") folder)) (
              subst
                (λ root.
                  All (IsVisitUnder root) (os.walk_dir log (join_path (codes "namespaced") folder)))
                (join-IsFolder (codes "namespaced") folder namespaced-IsFolder h)
                (law log (join_path (codes "namespaced") folder))))
            (pure-Keeps tt) kept;
    }

    process_folders-Keeps :
        (folders : List Str) → All IsFolder folders → Keeps (process_folders os folders)
    unfolding process_folders
    process_folders-Keeps [] h = pure-Keeps tt
    process_folders-Keeps (folder ∷ folders) (h, all) =
        bind-Keeps (wrapping-Keeps _ (process_folder-Keeps folder h))
          (λ _. process_folders-Keeps folders all)

    -- If the folders are plain names and a walk visits only its root and what is in it, then generating
    -- makes, removes and writes only things in the directory `cluster`, and that directory itself it
    -- only makes, whatever fails on the way and however the run ends.
    pub generate_cluster_scope-Confined :
        (folders : List Str)
        → All IsFolder folders
        → All Confined (final (generate_cluster_scope os folders []))
    unfolding generate_cluster_scope
    generate_cluster_scope-Confined folders all =
        (bind-Keeps (validate_and_setup-Keeps folders all)
            (λ _. process_folders-Keeps folders all)).kept
          [] tt
