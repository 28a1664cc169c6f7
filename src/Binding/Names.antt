-- ===== src/Binding/Names.antt =====
-- The external name of a binding, and which of the server's bindings it points at.
use mathlib.Core.Path.{subst}
use provider_rabbitmq.Prelude.{
  ◌≡◌, ◌≢◌, ◌↔◌, refl, ap, ◌∙◌, true, none, some, List, [], ◌∷◌, Str, codes, arith, str_eq_iff,
  index-lookup, lookup, All, Lacks, Bool-cases, inl, inr,
}
use provider_rabbitmq.Libraries.{external_name_key}
use provider_rabbitmq.Client.Types.{BindingInfo}
use provider_rabbitmq.Go.Split.{split, split-append, split_lacking}
use provider_rabbitmq.Binding.Types.{Binding, BindingParameters}
use provider_rabbitmq.Binding.Settings.{
  is_the_binding, find_binding, name_parts, binding_from, get_binding, get_external_name,
}

-- No part of the name holds a slash.
abbrev pub IsPlain : BindingParameters → Str → Type 0
IsPlain p key =
    Lacks b'/' p.vhost
    × Lacks b'/' p.source
    × Lacks b'/' p.destination_type
    × Lacks b'/' p.destination
    × Lacks b'/' key

abbrev pub NamedAs : Binding → Str → Type 0
NamedAs cr name = lookup external_name_key cr.meta.annotations ≡ some name

split-external_name :
    (p : BindingParameters) (key : Str)
    → IsPlain p key
    → split b'/' (get_external_name p key)
      ≡ p.vhost ∷ p.source ∷ p.destination_type ∷ p.destination ∷ key ∷ []
unfolding get_external_name
split-external_name p key (v, s, t, d, k) = rw (
  split-append b'/' p.vhost _ v,
  split-append b'/' p.source _ s,
  split-append b'/' p.destination_type _ t,
  split-append b'/' p.destination _ d,
  split_lacking b'/' key k,
)

-- The name under the default virtual host, which is a slash itself.
split-default_vhost :
    (p : BindingParameters) (key : Str)
    → p.vhost ≡ codes "/"
    → Lacks b'/' p.source
    → Lacks b'/' p.destination_type
    → Lacks b'/' p.destination
    → split b'/' (get_external_name p key)
      ≡ [] ∷ [] ∷ p.source ∷ p.destination_type ∷ p.destination ∷ split b'/' key
unfolding get_external_name
split-default_vhost p key e s t d = rw (
  e,
  split-append b'/' [] _ tt,
  split-append b'/' [] _ tt,
  split-append b'/' p.source _ s,
  split-append b'/' p.destination_type _ t,
  split-append b'/' p.destination _ d,
)

name_parts_named : (cr : Binding) (name : Str) → NamedAs cr name → name_parts cr ≡ split b'/' name
unfolding name_parts
name_parts_named cr name h = ap (split b'/') (index-lookup external_name_key cr.meta.annotations h)

fifth_part :
    (p : BindingParameters) (bindings : List BindingInfo) (a b c d key : Str) (rest : List Str)
    → binding_from p bindings (a ∷ b ∷ c ∷ d ∷ key ∷ rest) ≡ find_binding p key bindings
unfolding binding_from
fifth_part p bindings a b c d key rest = ground arith

get_binding-parts :
    (bindings : List BindingInfo) (cr : Binding) {a b c d key : Str} {rest : List Str}
    → name_parts cr ≡ a ∷ b ∷ c ∷ d ∷ key ∷ rest
    → get_binding bindings cr ≡ find_binding cr.for_provider key bindings
unfolding get_binding
get_binding-parts bindings cr {a} {b} {c} {d} {key} {rest} h =
    ap (binding_from cr.for_provider bindings) h
    ∙ fifth_part cr.for_provider bindings a b c d key rest

-- If no part of the external name that a creation stored holds a slash, the search is for the
-- properties key in it.
pub get_binding-external_name :
    (bindings : List BindingInfo) (cr : Binding) (key : Str)
    → IsPlain cr.for_provider key
    → NamedAs cr (get_external_name cr.for_provider key)
    → get_binding bindings cr ≡ find_binding cr.for_provider key bindings
get_binding-external_name bindings cr key plain named =
    get_binding-parts bindings cr
      (name_parts_named cr _ named ∙ split-external_name cr.for_provider key plain)

-- Under the default virtual host the search is for the destination's name in place of the
-- properties key, whatever key the creation stored.
pub get_binding-default_vhost :
    (bindings : List BindingInfo) (cr : Binding) (key : Str)
    → cr.for_provider.vhost ≡ codes "/"
    → Lacks b'/' cr.for_provider.source
    → Lacks b'/' cr.for_provider.destination_type
    → Lacks b'/' cr.for_provider.destination
    → NamedAs cr (get_external_name cr.for_provider key)
    → get_binding bindings cr ≡ find_binding cr.for_provider cr.for_provider.destination bindings
get_binding-default_vhost bindings cr key e s t d named =
    get_binding-parts bindings cr
      (name_parts_named cr _ named ∙ split-default_vhost cr.for_provider key e s t d)

pub is_the_binding_iff :
    (p : BindingParameters) (key : Str) (b : BindingInfo)
    → (is_the_binding p key b ≡ true) ↔ (
        (b.source ≡ p.source)
        × (b.destination ≡ p.destination)
        × (b.destination_type ≡ p.destination_type)
        × (b.properties_key ≡ key))
unfolding is_the_binding
is_the_binding_iff p key b = ground (
  arith,
  str_eq_iff b.source p.source,
  str_eq_iff b.destination p.destination,
  str_eq_iff b.destination_type p.destination_type,
  str_eq_iff b.properties_key key,
)

pub find_binding-none :
    (p : BindingParameters) (key : Str) (bindings : List BindingInfo)
    → All (λ (b : BindingInfo). b.properties_key ≢ key) bindings
    → find_binding p key bindings ≡ none
unfolding find_binding
find_binding-none p key [] h = refl
find_binding-none p key (b ∷ bindings) (other, h) = elim (Bool-cases (is_the_binding p key b)) [
  | inl same ↦ absurd (other ((is_the_binding_iff p key b).0 same).3)
  | inr differs ↦ rw differs (find_binding-none p key bindings h)
]

-- The binding that the search finds has the endpoints of the spec and the key that is searched
-- for.
pub find_binding_sound :
    (p : BindingParameters) (key : Str) (bindings : List BindingInfo) {b : BindingInfo}
    → find_binding p key bindings ≡ some b
    → (b.source ≡ p.source)
      × (b.destination ≡ p.destination)
      × (b.destination_type ≡ p.destination_type)
      × (b.properties_key ≡ key)
unfolding find_binding
find_binding_sound p key [] h = absurd (cc)
find_binding_sound p key (x ∷ bindings) {b} h = elim (Bool-cases (is_the_binding p key x)) [
  | inl same ↦
      let e : x ≡ b = first (rw same at h) in
      subst
        (λ y.
          (y.source ≡ p.source)
          × (y.destination ≡ p.destination)
          × (y.destination_type ≡ p.destination_type)
          × (y.properties_key ≡ key))
        e ((is_the_binding_iff p key x).0 same)
  | inr differs ↦ find_binding_sound p key bindings (rw differs at h)
]
  where
    first : some x ≡ some b → x ≡ b
    first e = cc
