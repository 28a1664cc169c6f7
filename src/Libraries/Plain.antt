-- ===== src/Libraries/Plain.antt =====
-- Plain functions that meet the laws of the libraries: comparison by a decision, and annotations
-- that are put in front of the others.
use native.Mathlib.Decide.{ℕ_discrete}
use provider_rabbitmq.Prelude.{
  ◌≡◌, ◌≢◌, ◌↔◌, refl, Bool, true, false, none, some, List, [], ◌∷◌, ◌++◌, arith, Str, StringMap,
  lookup, str_eq_iff,
}
use provider_rabbitmq.Libraries.{Libraries, LibraryLaws, external_name_key}

pub Strs-discrete : Discrete (List Str)
Strs-discrete = hlevel ℕ_discrete

abbrev decided {ℓ} : {P : Type ℓ} → Dec P → Bool
decided (yes _) = true
decided (no _) = false

decided_iff {ℓ} : {P : Type ℓ} (d : Dec P) → (decided d ≡ true) ↔ P
decided_iff (yes p) = ((λ _. p), (λ _. refl))
decided_iff (no n) = ((λ e. absurd (cc)), (λ p. absurd (n p)))

abbrev pub plain_libraries : Libraries
plain_libraries = record {
  cmp_equal = λ A d x y. decided (d x y);
  cmp_equal_slices = λ xs ys. decided (Strs-discrete xs ys);
  set_external_name = λ name m. (external_name_key, name) ∷ m;
  add_annotations = λ new m. new ++ m;
}

lookup-append_some :
    (k v : Str) (new m : StringMap) → lookup k new ≡ some v → lookup k (new ++ m) ≡ some v
unfolding lookup
lookup-append_some k v [] m h = cc
lookup-append_some k v ((j, w) ∷ new) m h = ground (arith, lookup-append_some k v new m)

lookup-append_none :
    (k : Str) (new m : StringMap) → lookup k new ≡ none → lookup k (new ++ m) ≡ lookup k m
unfolding lookup
lookup-append_none k [] m h = refl
lookup-append_none k ((j, w) ∷ new) m h = ground (arith, lookup-append_none k new m)

lookup-cons_self : (k v : Str) (m : StringMap) → lookup k ((k, v) ∷ m) ≡ some v
unfolding lookup
lookup-cons_self k v m = ground (arith, str_eq_iff k k)

lookup-cons_ne : (k j v : Str) (m : StringMap) → k ≢ j → lookup k ((j, v) ∷ m) ≡ lookup k m
unfolding lookup
lookup-cons_ne k j v m h = ground (arith, str_eq_iff k j)

pub plain-LibraryLaws : LibraryLaws plain_libraries
plain-LibraryLaws = record {
  cmp_equal_iff = λ A d x y. decided_iff (d x y);
  cmp_equal_slices_iff = λ xs ys. decided_iff (Strs-discrete xs ys);
  external_name_self = λ name m. lookup-cons_self external_name_key name m;
  external_name_other = λ name k m h. lookup-cons_ne k external_name_key name m h;
  added_annotation = lookup-append_some;
  kept_annotation = lookup-append_none;
}
