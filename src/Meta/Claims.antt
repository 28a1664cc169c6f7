-- ===== src/Meta/Claims.antt =====
-- What marking a resource as managed does to its annotations.
use provider_rabbitmq.Prelude.{
  ◌≡◌, ◌≢◌, refl, ◌∙◌, true, false, none, some, [], ◌∷◌, Str, codes, arith, str_eq, str_eq_iff,
  index, lookup,
}
use provider_rabbitmq.Libraries.{Libraries, LibraryLaws, external_name_key}
use provider_rabbitmq.Meta.{
  ObjectMeta, annotation_key_crossplane_managed, set_crossplane_managed, is_crossplane_managed,
}

keys_differ : external_name_key ≢ annotation_key_crossplane_managed
unfolding str_eq
keys_differ e =
    let h : false ≡ true = (str_eq_iff external_name_key annotation_key_crossplane_managed).1 e in
    cc

lookup_managed :
    lookup annotation_key_crossplane_managed
      ((annotation_key_crossplane_managed, codes "true") ∷ [])
    ≡ some (codes "true")
unfolding lookup str_eq
lookup_managed = refl

lookup_other :
    (k : Str)
    → k ≢ annotation_key_crossplane_managed
    → lookup k ((annotation_key_crossplane_managed, codes "true") ∷ []) ≡ none
unfolding lookup
lookup_other k h = ground (arith, str_eq_iff k annotation_key_crossplane_managed)

managed_of :
    (o : ObjectMeta)
    → lookup annotation_key_crossplane_managed o.annotations ≡ some (codes "true")
    → is_crossplane_managed o ≡ true
unfolding is_crossplane_managed str_eq
managed_of o h = rw (h, index)

-- The resource is managed, under the given external name.
abbrev pub IsClaimed : ObjectMeta → Str → Type 0
IsClaimed o name =
    (is_crossplane_managed o ≡ true) × (lookup external_name_key o.annotations ≡ some name)

module _ ⦃lib : Libraries⦄ (laws : LibraryLaws lib) where
  pub set_crossplane_managed-IsClaimed :
      (o : ObjectMeta) (name : Str) → IsClaimed (set_crossplane_managed o name) name
  unfolding set_crossplane_managed
  set_crossplane_managed-IsClaimed o name = (
    managed_of _ (laws.added_annotation _ _ _ _ lookup_managed),
    laws.kept_annotation _ _ _ (lookup_other _ keys_differ)
        ∙ laws.external_name_self name o.annotations,
  )

  -- Marking a resource as managed claims it under the external name, and leaves its name, its
  -- namespace and every annotation other than the mark and the external name as they were.
  pub set_crossplane_managed_lem :
      (o : ObjectMeta) (name k : Str)
      → k ≢ annotation_key_crossplane_managed
      → k ≢ external_name_key
      → IsClaimed (set_crossplane_managed o name) name
        × ((set_crossplane_managed o name).name ≡ o.name)
        × ((set_crossplane_managed o name).namespace ≡ o.namespace)
        × (lookup k (set_crossplane_managed o name).annotations ≡ lookup k o.annotations)
  unfolding set_crossplane_managed
  set_crossplane_managed_lem o name k other_managed other_name = (
    set_crossplane_managed-IsClaimed o name,
    refl,
    refl,
    laws.kept_annotation _ _ _ (lookup_other k other_managed)
        ∙ laws.external_name_other name k o.annotations other_name,
  )
