-- ===== src/Libraries.antt =====
-- The functions of third-party packages that the provider calls: github.com/google/go-cmp, and
-- pkg/meta of crossplane-runtime. They are parameters; what the code relies on is in `LibraryLaws`.
pub mod Plain
use provider_rabbitmq.Prelude.{
  ◌≡◌, ◌≢◌, ◌↔◌, Bool, true, Option, none, some, List, Str, codes, StringMap, lookup,
}

pub record Libraries : Type 1 where
  -- `cmp.Equal(x, y)`, which inspects two values of a type whose parts can be compared.
  pub cmp_equal : (A : Type 0) → Discrete A → A → A → Bool
  -- `cmp.Equal(xs, ys, cmpopts.EquateEmpty())` on []string; a nil slice is the empty list.
  pub cmp_equal_slices : List Str → List Str → Bool
  -- `meta.SetExternalName` and `meta.AddAnnotations`, on the annotations of the object.
  pub set_external_name : Str → StringMap → StringMap
  pub add_annotations : StringMap → StringMap → StringMap

-- The annotation that crossplane-runtime keeps the external name in.
abbrev pub external_name_key : Str
external_name_key = codes "crossplane.io/external-name"

-- The documented behaviour of those functions.
pub record LibraryLaws (lib : Libraries) : Type 1 where
  pub cmp_equal_iff :
      (A : Type 0) (d : Discrete A) (x y : A) → (lib.cmp_equal A d x y ≡ true) ↔ (x ≡ y)
  pub cmp_equal_slices_iff : (xs ys : List Str) → (lib.cmp_equal_slices xs ys ≡ true) ↔ (xs ≡ ys)
  pub external_name_self :
      (name : Str) (m : StringMap)
      → lookup external_name_key (lib.set_external_name name m) ≡ some name
  pub external_name_other :
      (name k : Str) (m : StringMap)
      → k ≢ external_name_key
      → lookup k (lib.set_external_name name m) ≡ lookup k m
  pub added_annotation :
      (k v : Str) (new m : StringMap)
      → lookup k new ≡ some v
      → lookup k (lib.add_annotations new m) ≡ some v
  pub kept_annotation :
      (k : Str) (new m : StringMap)
      → lookup k new ≡ none
      → lookup k (lib.add_annotations new m) ≡ lookup k m
