-- ===== src/Go/Json.antt =====
-- `json.Marshal` of a map[string]string: keys in ascending order, strings quoted with the escapes
-- of encoding/json, HTML characters among them.
pub mod Injective
use provider_rabbitmq.Prelude.{
  ◌-◌, ℕ, ◌+◌, ◌/◌, ◌%◌, Option, none, some, [], ◌∷◌, ◌++◌, ◌||◌, Bool, Str, codes, StringMap, ltb,
  ◌==◌, if◌then◌else◌,
}

unfoldable pub hex_digit : ℕ → ℕ
hex_digit n = if ltb n 10 then b'0' + n else b'a' + (n - 10)

-- `\uXXXX`.
unfoldable pub unicode : ℕ → Str
unicode c =
    b'\\'
    ∷ b'u'
    ∷ hex_digit (c / 16 / 16 / 16)
    ∷ hex_digit (c / 16 / 16 % 16)
    ∷ hex_digit (c / 16 % 16)
    ∷ hex_digit (c % 16)
    ∷ []

-- The letter of a two-character escape.
unfoldable pub short_letter : ℕ → Option ℕ
short_letter c =
    if c == b'"' || c == b'\\'
    then some c
    else if c == 8
    then some b'b'
    else if c == 12
    then some b'f'
    else if c == 10
    then some b'n'
    else if c == 13
    then some b'r'
    else if c == 9
    then some b't'
    else none

-- The other control characters, `<`, `>`, `&`, U+2028 and U+2029.
unfoldable pub is_unsafe : ℕ → Bool
is_unsafe c = ltb c 32 || c == b'<' || c == b'>' || c == b'&' || c == 0x2028 || c == 0x2029

unfoldable pub escape_with : Option ℕ → ℕ → Str
unfolding is_unsafe unicode hex_digit
escape_with (some letter) c = b'\\' ∷ letter ∷ []
escape_with none c = if is_unsafe c then unicode c else c ∷ []

unfoldable pub escape : ℕ → Str
unfolding short_letter escape_with
escape c = escape_with (short_letter c) c

unfoldable pub escape_all : Str → Str
escape_all [] = []
escape_all (c ∷ s) = escape c ++ escape_all s

unfoldable pub quote : Str → Str
quote s = b'"' ∷ escape_all s ++ b'"' ∷ []

-- The entries behind the first, each behind a comma, and the closing brace.
unfoldable pub marshal_rest : StringMap → Str
marshal_rest [] = b'}' ∷ []
marshal_rest ((k, v) ∷ m) = b',' ∷ quote k ++ (b':' ∷ quote v ++ marshal_rest m)

unfoldable pub marshal_entries : StringMap → Str
unfolding marshal_rest
marshal_entries [] = b'}' ∷ []
marshal_entries ((k, v) ∷ m) = quote k ++ (b':' ∷ quote v ++ marshal_rest m)

-- A nil map is `null`.
unfoldable pub marshal : Option StringMap → Str
unfolding marshal_entries
marshal none = codes "null"
marshal (some m) = b'{' ∷ marshal_entries m
