-- ===== src/Generator/Backups.antt =====
-- The names of the files that are set aside and put back.
use provider_rabbitmq.Prelude.{
  ◌≡◌, refl, sym, ap, ◌∙◌, Bool, true, false, ◌&&◌, none, some, ◌++◌, append_assoc, Str, codes,
  if◌then◌else◌,
}
use provider_rabbitmq.Go.Strings.{has_suffix, has_suffix_iff, trim_suffix-append}
use provider_rabbitmq.Generator.{backup_target, restore_target}

-- A test that guards a result held.
guarded :
    (b c : Bool) (q path : Str)
    → (if b && c then some q else none) ≡ some path
    → (b ≡ true) × (q ≡ path)
guarded true true q path h = (refl, cc)
guarded true false q path h = absurd (cc)
guarded false c q path h = absurd (cc)

-- Restoring gives a file that was backed up its path back, whatever the path is.
pub backup_restored :
    (path backup : Str) → backup_target path ≡ some backup → restore_target backup ≡ some path
unfolding backup_target restore_target
backup_restored path backup h =
    let (suffixed, named) = guarded (has_suffix (codes "referencers.go") path) _ _ backup h in
    let (r, e) = (has_suffix_iff (codes "referencers.go") path).0 suffixed in
    let found : has_suffix (codes "referencers.go.bak") (path ++ codes ".bak") ≡ true =
      (has_suffix_iff (codes "referencers.go.bak") (path ++ codes ".bak")).1 (
        r,
        ap (λ p. p ++ codes ".bak") e ∙ append_assoc r (codes "referencers.go") (codes ".bak"),
      ) in
    ap restore_target (sym named) ∙ restored found
  where
    restored :
        has_suffix (codes "referencers.go.bak") (path ++ codes ".bak") ≡ true
        → restore_target (path ++ codes ".bak") ≡ some path
    restored found = rw found (ap some (trim_suffix-append (codes ".bak") path))
