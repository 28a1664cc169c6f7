-- ===== src/Generator/Undoing.antt =====
-- That restoring the referencers undoes their backup.
use provider_rabbitmq.Prelude.{
  ◌≡◌, refl, sym, ap, ◌∙◌, Option, none, some, List, [], ◌∷◌, ◌++◌, append_assoc, append-nil, All,
  Str, codes,
}
use provider_rabbitmq.Client.Types.{ok}
use provider_rabbitmq.Handler.{Run, done, ◌>>◌}
use provider_rabbitmq.Generator.{backup_target, restore_target}
use provider_rabbitmq.Generator.Backups.{backup_restored}
use provider_rabbitmq.Generator.Walk.{
  Change, rename, Log, Visit, entry, refused, Files, answered, renamed, change, walk, backup_entry,
  restore_entry, backup_referencers, restore_referencers,
}

-- The path after the backup.
abbrev or_else : Str → Option Str → Str
or_else path none = path
or_else path (some target) = target

abbrev pub moved : List Visit → List Visit
moved [] = []
moved (entry path name is_dir ∷ visits) =
    entry (or_else path (backup_target path)) name is_dir ∷ moved visits
moved (refused e ∷ visits) = refused e ∷ moved visits

abbrev pub undone : Log → Log
undone [] = []
undone (rename old target ∷ log) = rename target old ∷ undone log
undone (c ∷ log) = c ∷ undone log

-- No backup is there before.
abbrev pub IsFresh : Visit → Type 0
IsFresh (entry path name is_dir) = restore_target path ≡ none
IsFresh (refused e) = Unit

abbrev moves : Str → Option Str → Log
moves path none = []
moves path (some target) = rename path target ∷ []

renames : List Visit → Log
renames [] = []
renames (entry path name is_dir ∷ visits) = moves path (backup_target path) ++ renames visits
renames (refused e ∷ visits) = renames visits

module _ (os : Files) where
  -- No change is refused.
  abbrev pub Permitted : Type 0
  Permitted = (log : Log) (c : Change) → os.answer log c ≡ ok tt

  module _ (permitted : Permitted) where
    renamed_lem :
        (path : Str) (target : Option Str) (log : Log)
        → renamed os path target log ≡ done tt (log ++ moves path target)
    unfolding change
    renamed_lem path none log = ap (done tt) (sym (append-nil log))
    renamed_lem path (some target) log =
        ap (λ a. answered os a (log ++ (rename path target ∷ [])))
          (permitted log (rename path target))

    more :
        (f : Visit → Log → Run Log (Unit {0})) (v : Visit) (visits : List Visit) (log l1 l2 : Log)
        → f v log ≡ done tt (log ++ l1)
        → walk os f visits (log ++ l1) ≡ done tt ((log ++ l1) ++ l2)
        → walk os f (v ∷ visits) log ≡ done tt (log ++ (l1 ++ l2))
    unfolding walk
    more f v visits log l1 l2 h rest =
        ap (λ run. ((λ _. run) >> walk os f visits) log) h
        ∙ rest
        ∙ ap (done tt) (append_assoc log l1 l2)

    backed :
        (visits : List Visit) (log : Log)
        → walk os (backup_entry os) visits log ≡ done tt (log ++ renames visits)
    unfolding walk backup_entry renames
    backed [] log = ap (done tt) (sym (append-nil log))
    backed (entry path name is_dir ∷ visits) log =
        more (backup_entry os) (entry path name is_dir) visits log (moves path (backup_target path))
          (renames visits) (renamed_lem path (backup_target path) log) (backed visits _)
    backed (refused e ∷ visits) log = backed visits log

    undone-moves :
        (path : Str) (target : Option Str) (l : Log)
        → undone (moves path target ++ l) ≡ undone (moves path target) ++ undone l
    undone-moves path none l = refl
    undone-moves path (some target) l = refl

    restored_moves :
        (path : Str) (target : Option Str)
        → backup_target path ≡ target
        → restore_target path ≡ none
        → moves (or_else path target) (restore_target (or_else path target))
          ≡ undone (moves path target)
    restored_moves path none h fresh = ap (moves path) fresh
    restored_moves path (some target) h fresh = ap (moves target) (backup_restored path target h)

    put_back :
        (visits : List Visit) (log : Log)
        → All IsFresh visits
        → walk os (restore_entry os) (moved visits) log ≡ done tt (log ++ undone (renames visits))
    unfolding walk restore_entry renames
    put_back [] log fresh = ap (done tt) (sym (append-nil log))
    put_back (entry path name is_dir ∷ visits) log (fresh, all) =
        let target : Option Str = backup_target path in
        more (restore_entry os) (entry (or_else path target) name is_dir) (moved visits) log
          (undone (moves path target)) (undone (renames visits))
          (renamed_lem (or_else path target) _ log
            ∙ ap (λ l. done tt (log ++ l)) (restored_moves path target refl fresh))
          (put_back visits _ all)
        ∙ ap (λ l. done tt (log ++ l)) (sym (undone-moves path target (renames visits)))
    put_back (refused e ∷ visits) log (_, all) = put_back visits log all

    -- If no change is refused, no backup is there before, and a walk after the backup visits what the
    -- first one visited under the new names, then the backup succeeds, and restoring the referencers
    -- after it renames every file back that the backup has renamed, in the same order, and no other.
    pub backup_undone :
        (visits : List Visit)
        → All IsFresh visits
        → os.walk_dir [] (codes ".") ≡ visits
        → ((log : Log)
            → backup_referencers os [] ≡ done tt log
            → os.walk_dir log (codes ".") ≡ moved visits)
        → (log : Log) × (backup_referencers os [] ≡ done tt log)
          × (restore_referencers os log ≡ done tt (log ++ undone log))
    unfolding backup_referencers restore_referencers
    backup_undone visits fresh first second =
        let ran : walk os (backup_entry os) (os.walk_dir [] (codes ".")) []
            ≡ done tt (renames visits) =
          ap (λ v. walk os (backup_entry os) v []) first ∙ backed visits [] in
        (
          renames visits,
          ran,
          ap (λ v. walk os (restore_entry os) v (renames visits)) (second (renames visits) ran)
              ∙ put_back visits (renames visits) fresh,
        )
