-- ===== src/User/Agreement.antt =====
-- What `isUpToDate` of user.go decides: which stored hashes are of a password, and which users
-- count as up to date.
use provider_rabbitmq.Prelude.{
  false_iff, pair_iff, choice_iff, then_iff, ℕ, zero, suc, ◌≡◌, ◌≢◌, ◌↔◌, ◌⊎◌, inl, inr, refl, sym,
  ap, ◌∙◌, Bool, true, false, not, Option, none, some, [], ◌∷◌, ◌++◌, All-append, Str, arith,
  str_eq, str_eq_iff, str_eq_refl, length, length-append, ltb, if◌then◌else◌, Bool-cases,
}
use provider_rabbitmq.Libraries.{Libraries, LibraryLaws}
use provider_rabbitmq.Client.Comparisons.{slices_iff}
use provider_rabbitmq.Client.Types.{UserInfo}
use provider_rabbitmq.Go.Base64.{IsBytes, decode_string, encode_to_string, decode-encode}
use provider_rabbitmq.User.Passwords.{
  Hashes, hashing_algorithm_sha256, hashing_algorithm_sha512, first_bytes, later_bytes,
  is_salted_sum, is_password_up_to_date_sha256, is_password_up_to_date_sha512, differs_under,
  password_differs,
}
use provider_rabbitmq.User.Settings.{is_up_to_date, tags_up_to_date}
use provider_rabbitmq.User.Types.{Bytes, UserParameters, UserSettings}

-- The bytes are a salt of four bytes and the sum of the salted password.
abbrev pub IsSaltedSum : (Bytes → Bytes) → Bytes → Option Bytes → Type 0
IsSaltedSum sum password decoded =
    (salt : Bytes) × (length salt ≡ 4) × (decoded ≡ some (salt ++ sum (salt ++ password)))

first-later : (n : ℕ) (bytes : Bytes) → first_bytes n bytes ++ later_bytes n bytes ≡ bytes
unfolding first_bytes later_bytes
first-later zero bytes = refl
first-later (suc n) [] = refl
first-later (suc n) (b ∷ bytes) = ap (λ x. b ∷ x) (first-later n bytes)

length-first_bytes :
    (n : ℕ) (bytes : Bytes) → ltb (length bytes) n ≡ false → length (first_bytes n bytes) ≡ n
unfolding first_bytes
length-first_bytes zero bytes h = refl
length-first_bytes (suc n) [] h = absurd (ground arith)
length-first_bytes (suc n) (b ∷ bytes) h = ap suc (length-first_bytes n bytes (ground arith))

first-append :
    (n : ℕ) (salt rest : Bytes)
    → length salt ≡ n
    → (first_bytes n (salt ++ rest) ≡ salt) × (later_bytes n (salt ++ rest) ≡ rest)
unfolding first_bytes later_bytes
first-append zero [] rest h = (refl, refl)
first-append zero (b ∷ salt) rest h = absurd (omega arith)
first-append (suc n) [] rest h = absurd (omega arith)
first-append (suc n) (b ∷ salt) rest h =
    let (first, later) = first-append n salt rest (omega arith) in (ap (λ x. b ∷ x) first, later)

salted :
    (sum : Bytes → Bytes) (password salt : Bytes)
    → length salt ≡ 4
    → is_salted_sum sum password (some (salt ++ sum (salt ++ password))) ≡ true
unfolding is_salted_sum
salted sum password salt n =
    let (first, later) = first-append 4 salt (sum (salt ++ password)) n in
    let long : ltb (length (salt ++ sum (salt ++ password))) 4 ≡ false =
      ground (arith, n, length-append salt (sum (salt ++ password))) in
    rw (long, first, later, str_eq_refl)

-- The check of a stored hash passes exactly if the stored bytes are a salt of four bytes and the
-- sum of the salt and the password.
pub is_salted_sum_iff :
    (sum : Bytes → Bytes) (password : Bytes) (decoded : Option Bytes)
    → (is_salted_sum sum password decoded ≡ true) ↔ IsSaltedSum sum password decoded
unfolding is_salted_sum
is_salted_sum_iff sum password none = ((λ h. absurd (cc)), (λ (salt, n, h). absurd (cc)))
is_salted_sum_iff sum password (some decoded) = (to, from)
  where
    to : is_salted_sum sum password (some decoded) ≡ true → IsSaltedSum sum password (some decoded)
    to h = elim (Bool-cases (ltb (length decoded) 4)) [
      | inl short ↦ absurd (cc (rw short at h))
      | inr long ↦
          let same = (str_eq_iff _ _).0 (rw long at h) in
          (
            first_bytes 4 decoded,
            length-first_bytes 4 decoded long,
            ap some (sym (first-later 4 decoded) ∙ ap (λ x. first_bytes 4 decoded ++ x) same),
          )
    ]

    from :
        IsSaltedSum sum password (some decoded) → is_salted_sum sum password (some decoded) ≡ true
    from (salt, n, h) = ap (is_salted_sum sum password) h ∙ salted sum password salt n

-- The tests of `isUpToDate` as conditions.
guarded_iff : (b c : Bool) → ((if b then not c else false) ≡ true) ↔ (b ≡ true) × (c ≡ false)
guarded_iff b c = ground arith

returns_iff : (d t : Bool) → ((if d then false else t) ≡ true) ↔ (d ≡ false) × (t ≡ true)
returns_iff d t = ground arith

chain_iff :
    (a b c d : Bool)
    → ((if a then false else if b then false else if c then true else d) ≡ true)
      ↔ (a ≡ false) × ((b ≡ false) × ((c ≡ true) ⊎ (d ≡ true)))
chain_iff a b true d = ground arith
chain_iff a b false d = ground arith

-- The server's hash is known not to be of the password: neither is empty, and the hash is by one of
-- the two algorithms that are checked, and not of the password.
abbrev pub Differs : ⦃h : Hashes⦄ → Bytes → UserInfo → Type 0
Differs ⦃h⦄ password api =
    (password ≢ [])
    × ((api.password_hash ≢ [])
        × (((api.hashing_algorithm ≡ hashing_algorithm_sha256)
              × ¬ IsSaltedSum h.sum256 password (decode_string api.password_hash))
            ⊎ ((api.hashing_algorithm ≡ hashing_algorithm_sha512)
                × ¬ IsSaltedSum h.sum512 password (decode_string api.password_hash))))

module _ ⦃h : Hashes⦄ where
  -- A stored hash that is the base64 of a salt of four bytes and of the sum of the salt and the
  -- password, as bytes, passes the check of that password, for either algorithm.
  pub stored_password_matches :
      (password salt : Bytes)
      → length salt ≡ 4
      → IsBytes salt
      → IsBytes (h.sum256 (salt ++ password))
      → IsBytes (h.sum512 (salt ++ password))
      → (is_password_up_to_date_sha256 password
            (encode_to_string (salt ++ h.sum256 (salt ++ password)))
          ≡ true)
        × (is_password_up_to_date_sha512 password
              (encode_to_string (salt ++ h.sum512 (salt ++ password)))
            ≡ true)
  unfolding is_password_up_to_date_sha256 is_password_up_to_date_sha512
  stored_password_matches password salt n bytes bytes256 bytes512 =
      (stored h.sum256 bytes256, stored h.sum512 bytes512)
    where
      stored :
          (sum : Bytes → Bytes)
          → IsBytes (sum (salt ++ password))
          → is_salted_sum sum password
              (decode_string (encode_to_string (salt ++ sum (salt ++ password))))
            ≡ true
      stored sum bytes' =
          ap (is_salted_sum sum password)
            (decode-encode (salt ++ sum (salt ++ password)) (All-append _ salt _ bytes bytes'))
          ∙ salted sum password salt n

  differs_under_iff :
      (sum : Bytes → Bytes) (algorithm : Str) (check : Bytes → Str → Bool) (password : Bytes)
      (api : UserInfo)
      → ((check password api.password_hash ≡ true)
          ↔ IsSaltedSum sum password (decode_string api.password_hash))
      → (differs_under algorithm check password api ≡ true) ↔ (
          (api.hashing_algorithm ≡ algorithm)
          × ¬ IsSaltedSum sum password (decode_string api.password_hash))
  unfolding differs_under
  differs_under_iff sum algorithm check password api checks =
      then_iff
        (guarded_iff (str_eq api.hashing_algorithm algorithm) (check password api.password_hash))
        (pair_iff (str_eq_iff api.hashing_algorithm algorithm) (false_iff _ checks))

  pub password_differs_iff :
      (password : Bytes) (api : UserInfo)
      → (password_differs password api ≡ true) ↔ Differs password api
  unfolding password_differs is_password_up_to_date_sha256 is_password_up_to_date_sha512
  password_differs_iff password api =
      then_iff (chain_iff (str_eq password []) (str_eq api.password_hash []) _ _) (
        pair_iff (false_iff _ (str_eq_iff password [])) (
          pair_iff (false_iff _ (str_eq_iff api.password_hash [])) (
            choice_iff
              (differs_under_iff h.sum256 hashing_algorithm_sha256 is_password_up_to_date_sha256
                password api
                (is_salted_sum_iff h.sum256 password (decode_string api.password_hash)))
              (differs_under_iff h.sum512 hashing_algorithm_sha512 is_password_up_to_date_sha512
                password api
                (is_salted_sum_iff h.sum512 password (decode_string api.password_hash))))))

-- The tags of settings, where there are settings, are the server's.
abbrev pub TagsAgree : Option UserSettings → UserInfo → Type 0
TagsAgree none api = Unit
TagsAgree (some spec) api = spec.tags ≡ api.tags

module _ ⦃lib : Libraries⦄ ⦃h : Hashes⦄ (laws : LibraryLaws lib) where
  tags_up_to_date_iff :
      (o : Option UserSettings) (api : UserInfo) → (tags_up_to_date o api ≡ true) ↔ TagsAgree o api
  unfolding tags_up_to_date
  tags_up_to_date_iff none api = ((λ _. tt), (λ _. refl))
  tags_up_to_date_iff (some spec) api = slices_iff laws spec.tags api.tags

  -- A user is up to date exactly when the tags agree and the server's hash is not known to be of
  -- another password: the password or the hash is empty, or the algorithm is another one than
  -- SHA-256 and SHA-512, or the hash is of the password.
  pub is_user_up_to_date_iff :
      (password : Bytes) (spec : UserParameters) (api : UserInfo)
      → (is_up_to_date password spec api ≡ true)
        ↔ ((¬ Differs password api) × TagsAgree spec.user_settings api)
  unfolding is_up_to_date
  is_user_up_to_date_iff password spec api =
      then_iff
        (returns_iff (password_differs password api) (tags_up_to_date spec.user_settings api))
        (pair_iff (false_iff _ (password_differs_iff password api))
          (tags_up_to_date_iff spec.user_settings api))

  -- Under a hashing algorithm other than the two that are checked, a user who is up to date for
  -- one password is up to date for every password.
  pub password_unchecked :
      (password other : Bytes) (spec : UserParameters) (api : UserInfo)
      → api.hashing_algorithm ≢ hashing_algorithm_sha256
      → api.hashing_algorithm ≢ hashing_algorithm_sha512
      → is_up_to_date password spec api ≡ true
      → is_up_to_date other spec api ≡ true
  password_unchecked password other spec api a b up =
      (is_user_up_to_date_iff other spec api).1
        (same, ((is_user_up_to_date_iff password spec api).0 up).1)
    where
      same : ¬ Differs other api
      same (_, (_, inl (e, _))) = a e
      same (_, (_, inr (e, _))) = b e
