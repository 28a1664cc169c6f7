-- ===== src/User/Tests.antt =====
-- Runs of the user client on the small server, and the theorems at concrete inputs.
use provider_rabbitmq.Prelude.{
  ◌≡◌, ◌↔◌, refl, arith, true, false, none, some, [], ◌∷◌, Str, codes, str_eq, lookup,
}
use provider_rabbitmq.Libraries.{Libraries}
use provider_rabbitmq.Libraries.Plain.{plain_libraries, plain-LibraryLaws}
use provider_rabbitmq.Meta.{is_crossplane_managed}
use provider_rabbitmq.Client.Memory.{
  Memory, empty_memory, memory_client, user_info, password_bytes, plain_sum, stored_hash,
}
use provider_rabbitmq.Go.Base64.{
  IsBytes, sextet, two_sextets, four_sextets, decode_string, encode_to_string, decode-encode,
}
use provider_rabbitmq.Client.Types.{ok, Result, UserInfo}
use provider_rabbitmq.Handler.{State, done, final, cast, call, ExternalObservation}
use provider_rabbitmq.Go.Error.{Error}
use provider_rabbitmq.User.{observe, put_user, create, update}
use provider_rabbitmq.User.Agreement.{
  IsSaltedSum, Differs, TagsAgree, is_user_up_to_date_iff, stored_password_matches,
}
use provider_rabbitmq.User.Updates.{updated_user_observed}
use provider_rabbitmq.User.Server.{UserServer}
use provider_rabbitmq.User.Convergence.{created_user_observed, user_tag_change_undone}
use provider_rabbitmq.User.Methods.{observed}
use provider_rabbitmq.User.Passwords.{
  Hashes, is_password_up_to_date_sha256, is_password_up_to_date_sha512, resolve_user_password,
  no_key_error,
}
use provider_rabbitmq.User.Settings.{is_up_to_date}
use provider_rabbitmq.User.Types.{User, UserParameters, UserSettings, KubeClient}

instance abbrev lib : Libraries
lib = plain_libraries

-- Sums that drop the salt.
instance abbrev plain_hashes : Hashes
plain_hashes = record { sum256 = plain_sum; sum512 = plain_sum }

password_bytes-IsBytes : (s : Str) → IsBytes (password_bytes s)
password_bytes-IsBytes [] = tt
password_bytes-IsBytes (b ∷ s) = (omega arith, password_bytes-IsBytes s)

stored-IsSaltedSum : (s : Str) → IsSaltedSum plain_sum s (decode_string (stored_hash s))
unfolding plain_sum
stored-IsSaltedSum s = (
  0 ∷ 0 ∷ 0 ∷ 0 ∷ [],
  refl,
  decode-encode _
      (omega arith, (omega arith, (omega arith, (omega arith, password_bytes-IsBytes s)))),
)

-- One secret with one key.
abbrev kube : KubeClient Memory
kube = record { get_secret = λ namespace name w. ok ((codes "password", codes "secret") ∷ []) }

memory_server : UserServer kube memory_client
memory_server = record {
  put = λ name settings w w' r e. (
    user_info name (stored_hash settings.password) settings,
    cc,
    refl,
    refl,
    stored-IsSaltedSum settings.password,
  );
  put_without_password = λ name settings w w' r e. (user_info name [] settings, cc, refl);
  secrets_kept = λ name namespace secret settings w w' r e. refl;
  secrets_kept_without_password = λ name namespace secret settings w w' r e. refl;
}

abbrev settings_with : Str → UserSettings
settings_with key = record {
  password = none;
  password_secret_ref = some (record { name = codes "shop"; namespace = codes "shop"; key = key });
  tags = codes "monitoring" ∷ [];
}

abbrev parameters : UserParameters
parameters = record { username = none; user_settings = some (settings_with (codes "password")) }

abbrev shop : User
shop = record {
  meta = record { name = codes "shop"; namespace = codes "shop"; annotations = [] };
  for_provider = parameters;
  at_provider = record { username = []; hashing_algorithm = []; tags = [] };
  available = false;
}

abbrev start : State User Memory
start = record { cr = some shop; world = empty_memory; open_bodies = 0 }

-- What the server has, with other tags.
abbrev other_info : UserInfo
other_info =
    user_info (codes "shop") (stored_hash (codes "secret"))
      (record { tags = codes "administrator" ∷ []; password = codes "secret" })

abbrev foreign : State User Memory
foreign = record start { world = record empty_memory { user = some other_info } }

-- The same resource once it is managed.
abbrev owned : User
owned = record shop {
  meta = record shop.meta {
    annotations = (codes "rabbitmq.crossplane.io/managed", codes "true") ∷ [];
  };
}

abbrev managed : State User Memory
managed = record foreign { cr = some owned }

shop_unmanaged : is_crossplane_managed shop.meta ≡ false
unfolding is_crossplane_managed lookup str_eq
shop_unmanaged = refl

owned_managed : is_crossplane_managed owned.meta ≡ true
unfolding is_crossplane_managed lookup str_eq
owned_managed = refl

resolved :
    resolve_user_password kube empty_memory (some (settings_with (codes "password")))
    ≡ ok (codes "secret")
unfolding resolve_user_password lookup str_eq
resolved = refl

resolved_managed :
    resolve_user_password kube managed.world (some (settings_with (codes "password")))
    ≡ ok (codes "secret")
unfolding resolve_user_password lookup str_eq
resolved_managed = refl

is_user_up_to_date_iff_example :
    (is_up_to_date (codes "secret") parameters other_info ≡ true)
    ↔ ((¬ Differs (codes "secret") other_info) × TagsAgree parameters.user_settings other_info)
is_user_up_to_date_iff_example =
    is_user_up_to_date_iff plain-LibraryLaws (codes "secret") parameters other_info

-- A user whose hash is by MD5, without tags, and a spec without settings.
abbrev md5_info : UserInfo
md5_info = record {
  name = codes "shop";
  password_hash = codes "hash";
  hashing_algorithm = [];
  tags = [];
}

abbrev bare : UserParameters
bare = record { username = none; user_settings = none }

md5_up_to_date : is_up_to_date (codes "secret") bare md5_info ≡ true
unfolding is_up_to_date str_eq
md5_up_to_date = refl

-- A secret that lacks the key.
abbrev wrong_key : State User Memory
wrong_key = record start {
  cr = some (record shop {
    for_provider = record { username = none; user_settings = some (settings_with (codes "key")) };
  });
}

abbrev missing : Error
missing = no_key_error (record { name = codes "shop"; namespace = codes "shop"; key = codes "key" })

unresolved :
    resolve_user_password kube empty_memory (some (settings_with (codes "key")))
    ≡ Result.err missing
unfolding resolve_user_password lookup str_eq
unresolved = refl

created : create kube memory_client start ≡ done tt (final (create kube memory_client start))
unfolding create cast call resolve_user_password put_user lookup str_eq
created = refl

created_user_observed_example :
    (o : ExternalObservation) × (s : State User Memory) × (observe kube memory_client
        (final (create kube memory_client start))
      ≡ done o s)
    × (o.resource_exists ≡ true)
    × (o.resource_up_to_date ≡ true)
created_user_observed_example =
    created_user_observed kube memory_client plain-LibraryLaws memory_server start refl created

user_tag_change_undone_example :
    (o : ExternalObservation) × (s : State User Memory) × (observe kube memory_client managed
      ≡ done o s)
    × (s.cr ≡ some (observed owned other_info))
    × ((observed owned other_info).for_provider.user_settings
        ≡ some (record (settings_with (codes "password")) { tags = codes "administrator" ∷ [] }))
    × ((o.resource_up_to_date ≡ true) ↔ (¬ Differs (codes "secret") other_info))
user_tag_change_undone_example =
    user_tag_change_undone kube memory_client plain-LibraryLaws managed refl owned_managed refl
      resolved_managed refl (cc) (cc)

updated : update kube memory_client managed ≡ done tt (final (update kube memory_client managed))
unfolding update cast call resolve_user_password put_user lookup str_eq
updated = refl

updated_user_observed_example :
    (o : ExternalObservation) × (s : State User Memory) × (observe kube memory_client
        (final (update kube memory_client managed))
      ≡ done o s)
    × (o.resource_exists ≡ true)
    × (o.resource_up_to_date ≡ true)
updated_user_observed_example =
    updated_user_observed kube memory_client plain-LibraryLaws memory_server managed refl
      owned_managed updated

stored_password_matches_example :
    (is_password_up_to_date_sha256
        (codes "secret")
        (encode_to_string (1 ∷ 2 ∷ 3 ∷ 4 ∷ plain_sum (1 ∷ 2 ∷ 3 ∷ 4 ∷ codes "secret")))
      ≡ true)
    × (is_password_up_to_date_sha512
          (codes "secret")
          (encode_to_string (1 ∷ 2 ∷ 3 ∷ 4 ∷ plain_sum (1 ∷ 2 ∷ 3 ∷ 4 ∷ codes "secret")))
        ≡ true)
unfolding plain_sum
stored_password_matches_example =
    stored_password_matches (codes "secret") (1 ∷ 2 ∷ 3 ∷ 4 ∷ []) refl
      (omega arith, (omega arith, (omega arith, (omega arith, tt))))
      (password_bytes-IsBytes (codes "secret")) (password_bytes-IsBytes (codes "secret"))

-- "AQIDBA==" is four bytes and no sum.
short_hash : decode_string (codes "AQID\nBA==") ≡ some (1 ∷ 2 ∷ 3 ∷ 4 ∷ [])
unfolding decode_string sextet two_sextets four_sextets
short_hash = refl
