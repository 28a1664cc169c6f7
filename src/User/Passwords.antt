-- ===== src/User/Passwords.antt =====
-- The passwords of user.go: where one comes from, and whether the server's hash is of it.
use provider_rabbitmq.Prelude.{
  ℕ, zero, suc, Bool, true, false, not, Option, none, some, List, [], ◌∷◌, ◌++◌, Str, codes, str_eq,
  length, ltb, lookup, if◌then◌else◌,
}
use provider_rabbitmq.Client.Types.{Result, ok, err, UserInfo}
use provider_rabbitmq.Go.Base64.{decode_string}
use provider_rabbitmq.Go.Error.{Error, new, wrap}
use provider_rabbitmq.User.Types.{Bytes, SecretKeySelector, UserSettings, KubeClient}

-- crypto/sha256 and crypto/sha512.
pub record Hashes : Type 0 where
  pub sum256 : Bytes → Bytes
  pub sum512 : Bytes → Bytes

abbrev pub hashing_algorithm_sha256 : Str
hashing_algorithm_sha256 = codes "rabbit_password_hashing_sha256"

abbrev pub hashing_algorithm_sha512 : Str
hashing_algorithm_sha512 = codes "rabbit_password_hashing_sha512"

-- `bytes[:n]` and `bytes[n:]`, where there are that many bytes.
unfoldable pub first_bytes : ℕ → Bytes → Bytes
first_bytes zero bytes = []
first_bytes (suc n) [] = []
first_bytes (suc n) (b ∷ bytes) = b ∷ first_bytes n bytes

unfoldable pub later_bytes : ℕ → Bytes → Bytes
later_bytes zero bytes = bytes
later_bytes (suc n) [] = []
later_bytes (suc n) (b ∷ bytes) = later_bytes n bytes

-- The comparison with the salted sum; the salt is the first four bytes.
unfoldable pub is_salted_sum : (Bytes → Bytes) → Bytes → Option Bytes → Bool
unfolding first_bytes later_bytes
is_salted_sum sum password none = false
is_salted_sum sum password (some decoded) =
    if ltb (length decoded) 4
    then false
    else str_eq (later_bytes 4 decoded) (sum (first_bytes 4 decoded ++ password))

module _ ⦃h : Hashes⦄ where
  unfoldable pub is_password_up_to_date_sha256 : Bytes → Str → Bool
  unfolding is_salted_sum
  is_password_up_to_date_sha256 password stored =
      is_salted_sum h.sum256 password (decode_string stored)

  unfoldable pub is_password_up_to_date_sha512 : Bytes → Str → Bool
  unfolding is_salted_sum
  is_password_up_to_date_sha512 password stored =
      is_salted_sum h.sum512 password (decode_string stored)

  -- The test in the branch of one algorithm.
  unfoldable pub differs_under : Str → (Bytes → Str → Bool) → Bytes → UserInfo → Bool
  differs_under algorithm check password api =
      if str_eq api.hashing_algorithm algorithm
      then not (check password api.password_hash)
      else false

  -- The first part of `isUpToDate`: true if it returns false for the password.
  unfoldable pub password_differs : Bytes → UserInfo → Bool
  unfolding differs_under is_password_up_to_date_sha256 is_password_up_to_date_sha512
  password_differs password api =
      if str_eq password []
      then false
      else if str_eq api.password_hash []
      then false
      else if differs_under hashing_algorithm_sha256 is_password_up_to_date_sha256 password api
      then true
      else differs_under hashing_algorithm_sha512 is_password_up_to_date_sha512 password api

-- `errors.Errorf("secret %s has no key %s", ref.Name, ref.Key)`
abbrev pub no_key_error : SecretKeySelector → Error
no_key_error ref = new (codes "secret " ++ (ref.name ++ (codes " has no key " ++ ref.key)))

unfoldable pub password_at : SecretKeySelector → Option Bytes → Result Bytes
password_at ref none = err (no_key_error ref)
password_at ref (some password) = ok password

unfoldable pub password_in : SecretKeySelector → Result (List (Str × Bytes)) → Result Bytes
unfolding password_at lookup
password_in ref (err e) = err (wrap e (codes "cannot get password secret"))
password_in ref (ok entries) = password_at ref (lookup ref.key entries)

module _ {W : Type 0} (kube : KubeClient W) (w : W) where
  unfoldable pub password_of_ref : Option SecretKeySelector → Result Bytes
  unfolding password_in
  password_of_ref none = ok []
  password_of_ref (some ref) = password_in ref (kube.get_secret ref.namespace ref.name w)

  unfoldable pub password_of : Option Bytes → Option SecretKeySelector → Result Bytes
  unfolding password_of_ref
  password_of (some password) ref = ok password
  password_of none ref = password_of_ref ref

  unfoldable pub resolve_user_password : Option UserSettings → Result Bytes
  unfolding password_of
  resolve_user_password none = ok []
  resolve_user_password (some spec) = password_of spec.password spec.password_secret_ref
