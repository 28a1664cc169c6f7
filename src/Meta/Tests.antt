-- ===== src/Meta/Tests.antt =====
-- The theorem on the managed mark at a resource that has another annotation.
use provider_rabbitmq.Prelude.{◌≡◌, [], ◌∷◌, codes, lookup}
use provider_rabbitmq.Libraries.{Libraries}
use provider_rabbitmq.Libraries.Plain.{plain_libraries, plain-LibraryLaws}
use provider_rabbitmq.Meta.{ObjectMeta, set_crossplane_managed}
use provider_rabbitmq.Meta.Claims.{IsClaimed, set_crossplane_managed_lem}

instance abbrev lib : Libraries
lib = plain_libraries

abbrev orders : ObjectMeta
orders = record {
  name = codes "orders";
  namespace = codes "shop";
  annotations = (codes "team", codes "blue") ∷ [];
}

set_crossplane_managed_lem_example :
    IsClaimed (set_crossplane_managed orders (codes "orders")) (codes "orders")
    × ((set_crossplane_managed orders (codes "orders")).name ≡ orders.name)
    × ((set_crossplane_managed orders (codes "orders")).namespace ≡ orders.namespace)
    × (lookup (codes "team") (set_crossplane_managed orders (codes "orders")).annotations
        ≡ lookup (codes "team") orders.annotations)
set_crossplane_managed_lem_example =
    set_crossplane_managed_lem plain-LibraryLaws orders (codes "orders") (codes "team") (cc) (cc)
