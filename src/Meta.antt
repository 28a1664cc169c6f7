-- ===== src/Meta.antt =====
-- internal/rabbitmqmeta/rabbitmq_meta.go: the annotation by which the provider knows the external
-- objects that it has created.
pub mod Claims
mod Tests
use provider_rabbitmq.Prelude.{Bool, not, [], ◌∷◌, ◌++◌, Str, codes, StringMap, str_eq, index}
use provider_rabbitmq.Go.Error.{Error, new, wrap}
use provider_rabbitmq.Libraries.{Libraries}

-- The metadata of a Kubernetes object, as far as it is read here.
pub record ObjectMeta : Type 0 where
  pub name : Str
  pub namespace : Str
  pub annotations : StringMap

abbrev pub annotation_key_crossplane_managed : Str
annotation_key_crossplane_managed = codes "rabbitmq.crossplane.io/managed"

unfoldable pub set_crossplane_managed : ⦃lib : Libraries⦄ → ObjectMeta → Str → ObjectMeta
set_crossplane_managed ⦃lib⦄ cr external_name = record cr {
  annotations =
      lib.add_annotations ((annotation_key_crossplane_managed, codes "true") ∷ [])
        (lib.set_external_name external_name cr.annotations);
}

unfoldable pub is_crossplane_managed : ObjectMeta → Bool
unfolding index
is_crossplane_managed o =
    str_eq (index annotation_key_crossplane_managed o.annotations) (codes "true")

unfoldable pub is_not_crossplane_managed : ObjectMeta → Bool
unfolding is_crossplane_managed
is_not_crossplane_managed o = not (is_crossplane_managed o)

unfoldable pub new_not_crossplane_managed_error : Str → Error
new_not_crossplane_managed_error external_name =
    wrap
      (new (
        (codes "external object is managed by other resource or import is required (external name: "
          ++ external_name)
        ++ codes ")"))
      []
