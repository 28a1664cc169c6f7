-- ===== src/Go/Base64.antt =====
-- encoding/base64: `StdEncoding`, with padding.
use provider_rabbitmq.Prelude.{
  ℕ, ◌+◌, ◌-◌, ◌*◌, ◌/◌, ◌%◌, ◌<◌, ◌≡◌, refl, ap, ◌∙◌, false, ◌||◌, Option, none, some, List, [],
  ◌∷◌, Str, arith, ltb, ◌==◌, if◌then◌else◌, All,
}

-- `decodeMap`: the six bits that a character of the alphabet stands for.
unfoldable pub sextet : ℕ → Option ℕ
sextet c =
    if ltb c b'A'
    then (if ltb c b'0'
        then (if c == b'+' then some 62 else if c == b'/' then some 63 else none)
        else if ltb b'9' c
        then none
        else some (c + 4))
    else if ltb c b'a'
    then (if ltb b'Z' c then none else some (c - b'A'))
    else if ltb b'z' c
    then none
    else some (c - 71)

-- The alphabet.
unfoldable pub letter : ℕ → ℕ
letter n =
    if ltb n 26
    then n + b'A'
    else if ltb n 52
    then n + 71
    else if ltb n 62
    then n - 4
    else if n == 62
    then b'+'
    else b'/'

unfoldable pub four_sextets :
    Option ℕ → Option ℕ → Option ℕ → Option ℕ → Option (List ℕ) → Option (List ℕ)
four_sextets (some a) (some b) (some c) (some d) (some more) =
    some ((a * 4 + b / 16) ∷ (b % 16 * 16 + c / 4) ∷ (c % 4 * 64 + d) ∷ more)
four_sextets _ _ _ _ _ = none

unfoldable pub three_sextets : Option ℕ → Option ℕ → Option ℕ → Option (List ℕ)
three_sextets (some a) (some b) (some c) = some ((a * 4 + b / 16) ∷ (b % 16 * 16 + c / 4) ∷ [])
three_sextets _ _ _ = none

unfoldable pub two_sextets : Option ℕ → Option ℕ → Option (List ℕ)
two_sextets (some a) (some b) = some ((a * 4 + b / 16) ∷ [])
two_sextets _ _ = none

abbrev at_end : Str → Option (List ℕ) → Option (List ℕ)
at_end [] bytes = bytes
at_end (c ∷ s) bytes = none

-- `decodeQuantum`: four characters, of which the last two may be padding at the end; `more` is what
-- the rest decodes to. The bits that padding leaves over are not checked.
unfoldable pub quantum : ℕ → ℕ → ℕ → ℕ → Str → Option (List ℕ) → Option (List ℕ)
quantum a b c d rest more =
    if c == b'='
    then (if d == b'=' then at_end rest (two_sextets (sextet a) (sextet b)) else none)
    else if d == b'='
    then at_end rest (three_sextets (sextet a) (sextet b) (sextet c))
    else four_sextets (sextet a) (sextet b) (sextet c) (sextet d) more

unfoldable pub decode_quanta : Str → Option (List ℕ)
unfolding quantum
decode_quanta [] = some []
decode_quanta (a ∷ b ∷ c ∷ d ∷ rest) = quantum a b c d rest (decode_quanta rest)
decode_quanta _ = none

-- Line ends are skipped wherever they stand.
unfoldable pub without_newlines : Str → Str
without_newlines [] = []
without_newlines (c ∷ s) =
    let rest = without_newlines s in if c == 10 || c == 13 then rest else c ∷ rest

-- `DecodeString`; none for an error.
unfoldable pub decode_string : Str → Option (List ℕ)
unfolding decode_quanta without_newlines
decode_string s = decode_quanta (without_newlines s)

-- `EncodeToString`
unfoldable pub encode_to_string : List ℕ → Str
encode_to_string [] = []
encode_to_string (x ∷ []) = letter (x / 4) ∷ letter (x % 4 * 16) ∷ b'=' ∷ b'=' ∷ []
encode_to_string (x ∷ y ∷ []) =
    letter (x / 4) ∷ letter (x % 4 * 16 + y / 16) ∷ letter (y % 16 * 4) ∷ b'=' ∷ []
encode_to_string (x ∷ y ∷ z ∷ rest) =
    letter (x / 4)
    ∷ letter (x % 4 * 16 + y / 16)
    ∷ letter (y % 16 * 4 + z / 64)
    ∷ letter (z % 64)
    ∷ encode_to_string rest

sextet-letter : (n : ℕ) → n < 64 → sextet (letter n) ≡ some n
unfolding sextet letter
sextet-letter n h = ground arith

not_padding : (n : ℕ) → n < 64 → (letter n == b'=') ≡ false
unfolding letter
not_padding n h = ground arith

not_newline : (n : ℕ) → n < 64 → (letter n == 10 || letter n == 13) ≡ false
unfolding letter
not_newline n h = ground arith

abbrev pub IsBytes : List ℕ → Type 0
IsBytes bytes = All (λ b. b < 256) bytes

newlines-encode :
    (bytes : List ℕ)
    → IsBytes bytes
    → without_newlines (encode_to_string bytes) ≡ encode_to_string bytes
unfolding encode_to_string without_newlines
newlines-encode [] all = refl
newlines-encode (x ∷ []) (hx, all) =
    rw (not_newline (x / 4) (omega arith), not_newline (x % 4 * 16) (omega arith)) refl
newlines-encode (x ∷ y ∷ []) (hx, (hy, all)) =
    rw
      (
        not_newline (x / 4) (omega arith),
        not_newline (x % 4 * 16 + y / 16) (omega arith),
        not_newline (y % 16 * 4) (omega arith),
      )
      refl
newlines-encode (x ∷ y ∷ z ∷ rest) (hx, (hy, (hz, all))) =
    rw
      (
        not_newline (x / 4) (omega arith),
        not_newline (x % 4 * 16 + y / 16) (omega arith),
        not_newline (y % 16 * 4 + z / 64) (omega arith),
        not_newline (z % 64) (omega arith),
        newlines-encode rest all,
      )
      refl

-- The bytes of four sextets, put together again.
first_byte : (x y : ℕ) → y < 256 → x / 4 * 4 + (x % 4 * 16 + y / 16) / 16 ≡ x
first_byte x y h = omega arith

second_byte :
    (x y z : ℕ)
    → y < 256
    → z < 256
    → (x % 4 * 16 + y / 16) % 16 * 16 + (y % 16 * 4 + z / 64) / 4 ≡ y
second_byte x y z hy hz = omega arith

last_byte : (x y : ℕ) → y < 256 → (x % 4 * 16 + y / 16) % 16 * 16 + y % 16 * 4 / 4 ≡ y
last_byte x y h = omega arith

third_byte : (y z : ℕ) → z < 256 → (y % 16 * 4 + z / 64) % 4 * 64 + z % 64 ≡ z
third_byte y z h = omega arith

quanta-encode :
    (bytes : List ℕ) → IsBytes bytes → decode_quanta (encode_to_string bytes) ≡ some bytes
unfolding encode_to_string decode_quanta quantum two_sextets three_sextets four_sextets
quanta-encode [] all = refl
quanta-encode (x ∷ []) (hx, all) =
    rw (sextet-letter (x / 4) (omega arith), sextet-letter (x % 4 * 16) (omega arith))
      (ap (λ n. some (n ∷ [])) (omega arith))
quanta-encode (x ∷ y ∷ []) (hx, (hy, all)) =
    rw
      (
        not_padding (y % 16 * 4) (omega arith),
        sextet-letter (x / 4) (omega arith),
        sextet-letter (x % 4 * 16 + y / 16) (omega arith),
        sextet-letter (y % 16 * 4) (omega arith),
      )
      (rw (first_byte x y hy, last_byte x y hy) refl)
quanta-encode (x ∷ y ∷ z ∷ rest) (hx, (hy, (hz, all))) =
    rw
      (
        not_padding (y % 16 * 4 + z / 64) (omega arith),
        not_padding (z % 64) (omega arith),
        sextet-letter (x / 4) (omega arith),
        sextet-letter (x % 4 * 16 + y / 16) (omega arith),
        sextet-letter (y % 16 * 4 + z / 64) (omega arith),
        sextet-letter (z % 64) (omega arith),
        quanta-encode rest all,
      )
      (rw (first_byte x y hy, second_byte x y z hy hz, third_byte y z hz) refl)

-- Decoding undoes encoding, for bytes.
pub decode-encode :
    (bytes : List ℕ) → IsBytes bytes → decode_string (encode_to_string bytes) ≡ some bytes
unfolding decode_string
decode-encode bytes all = ap decode_quanta (newlines-encode bytes all) ∙ quanta-encode bytes all
