-- ===== src/Permissions/Tests.antt =====
-- Runs of the permissions client on the small server, and the theorems at concrete inputs.
use provider_rabbitmq.Prelude.{◌≡◌, refl, true, false, none, some, [], ◌∷◌, codes, str_eq, lookup}
use provider_rabbitmq.Libraries.{Libraries}
use provider_rabbitmq.Libraries.Plain.{plain_libraries, plain-LibraryLaws}
use provider_rabbitmq.Meta.{is_crossplane_managed}
use provider_rabbitmq.Client.Memory.{Memory, empty_memory, memory_client, permission_info}
use provider_rabbitmq.Client.Types.{PermissionInfo}
use provider_rabbitmq.Handler.{State, done, final, cast, call, ExternalObservation}
use provider_rabbitmq.Permissions.{update, observe, create}
use provider_rabbitmq.Permissions.Convergence.{PermissionsServer, created_permissions_observed}
use provider_rabbitmq.Permissions.Settings.{generate_permission_settings}
use provider_rabbitmq.Permissions.Updates.{updated_permissions_observed}
use provider_rabbitmq.Permissions.Types.{Permissions, PermissionsParameters, PermissionSettings}

instance abbrev lib : Libraries
lib = plain_libraries

memory_server : PermissionsServer memory_client
memory_server = record {
  updated = λ vhost user p w w' r e. (permission_info vhost user p, cc, refl, refl, refl);
}

abbrev settings : PermissionSettings
settings = record { configure = codes "^$"; write = codes ".*"; read = codes ".*" }

abbrev parameters : PermissionsParameters
parameters = record {
  user = codes "shop";
  vhost = codes "orders";
  permission_settings = some settings;
}

abbrev shop : Permissions
shop = record {
  meta = record { name = codes "shop"; namespace = codes "shop"; annotations = [] };
  for_provider = parameters;
  at_provider = record { user = []; vhost = []; configure = []; write = []; read = [] };
  available = false;
}

abbrev start : State Permissions Memory
start = record { cr = some shop; world = empty_memory; open_bodies = 0 }

abbrev bare : State Permissions Memory
bare = record start {
  cr = some (record shop { for_provider = record parameters { permission_settings = none } });
}

-- What the server has, made by somebody else.
abbrev other_info : PermissionInfo
other_info =
    permission_info (codes "orders") (codes "shop")
      (record { configure = []; write = []; read = codes ".*" })

abbrev foreign : State Permissions Memory
foreign = record start { world = record empty_memory { permissions = some other_info } }

shop_unmanaged : is_crossplane_managed shop.meta ≡ false
unfolding is_crossplane_managed lookup str_eq
shop_unmanaged = refl

created : create memory_client start ≡ done tt (final (create memory_client start))
unfolding create cast call generate_permission_settings
created = refl

created_permissions_observed_example :
    (o : ExternalObservation) × (s : State Permissions Memory) × (observe memory_client
        (final (create memory_client start))
      ≡ done o s)
    × (o.resource_exists ≡ true)
    × (o.resource_up_to_date ≡ true)
created_permissions_observed_example =
    created_permissions_observed plain-LibraryLaws memory_server start refl created

-- The same resource once it is managed, and its update.
abbrev owned : Permissions
owned = record shop {
  meta = record shop.meta {
    annotations = (codes "rabbitmq.crossplane.io/managed", codes "true") ∷ [];
  };
}

abbrev managed : State Permissions Memory
managed = record foreign { cr = some owned }

owned_managed : is_crossplane_managed owned.meta ≡ true
unfolding is_crossplane_managed lookup str_eq
owned_managed = refl

updated : update memory_client managed ≡ done tt (final (update memory_client managed))
unfolding update cast call generate_permission_settings
updated = refl

updated_permissions_observed_example :
    (o : ExternalObservation) × (s : State Permissions Memory) × (observe memory_client
        (final (update memory_client managed))
      ≡ done o s)
    × (o.resource_exists ≡ true)
    × (o.resource_up_to_date ≡ true)
updated_permissions_observed_example =
    updated_permissions_observed memory_client plain-LibraryLaws memory_server managed refl
      owned_managed updated
