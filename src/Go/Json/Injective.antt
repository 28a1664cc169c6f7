-- ===== src/Go/Json/Injective.antt =====
-- `json.Marshal` tells string maps apart: equal texts come from equal maps.
use provider_rabbitmq.Prelude.{
  ℕ, ◌+◌, ◌-◌, ◌*◌, ◌/◌, ◌%◌, ◌<◌, ◌≡◌, ◌≢◌, refl, ap, sym, ◌∙◌, Option, none, some, [], ◌∷◌, ◌++◌,
  true, false, arith, Str, StringMap, ltb, ◌==◌, if◌then◌else◌, append_assoc, Bool-cases, inl, inr,
}
use provider_rabbitmq.Go.Json.{
  hex_digit, unicode, short_letter, is_unsafe, escape_with, escape, escape_all, quote, marshal_rest,
  marshal_entries, marshal,
}

hex_value : ℕ → ℕ
hex_value c = if ltb c b'a' then c - b'0' else c - b'a' + 10

-- The character behind a backslash and a letter other than `u`.
short : ℕ → ℕ
short c =
    if c == b'b'
    then 8
    else if c == b'f'
    then 12
    else if c == b'n'
    then 10
    else if c == b'r'
    then 13
    else if c == b't'
    then 9
    else c

-- The character of `\uXXXX`, from the digits that occur.
long : ℕ → ℕ → ℕ → ℕ → ℕ
unfolding hex_value
long a b c d = ((hex_value a * 16 + hex_value b) * 16 + hex_value c) * 16 + hex_value d

-- The reading of what follows a backslash.
escaped : Str → Option (ℕ × Str)
unfolding long short
escaped (u ∷ a ∷ b ∷ c ∷ d ∷ s) =
    if u == b'u' then some (long a b c d, s) else some (short u, a ∷ b ∷ c ∷ d ∷ s)
escaped (u ∷ s) = some (short u, s)
escaped [] = none

-- The reading of one character of a quoted text; none at the closing quote.
next : Str → Option (ℕ × Str)
unfolding escaped
next [] = none
next (c ∷ s) = if c == b'"' then none else if c == b'\\' then escaped s else some (c, s)

short_escape : (u : ℕ) (s : Str) → u ≢ b'u' → escaped (u ∷ s) ≡ some (short u, s)
unfolding escaped short
short_escape u [] h = refl
short_escape u (a ∷ []) h = refl
short_escape u (a ∷ b ∷ []) h = refl
short_escape u (a ∷ b ∷ c ∷ []) h = refl
short_escape u (a ∷ b ∷ c ∷ d ∷ s) h = ground arith

hex_value-hex_digit : (d : ℕ) → d < 16 → hex_value (hex_digit d) ≡ d
unfolding hex_value hex_digit
hex_value-hex_digit d h = ground arith

long-hex_digits :
    (c : ℕ)
    → c < 65536
    → long
        (hex_digit (c / 16 / 16 / 16))
        (hex_digit (c / 16 / 16 % 16))
        (hex_digit (c / 16 % 16))
        (hex_digit (c % 16))
      ≡ c
unfolding long
long-hex_digits c h =
    rw
      (
        hex_value-hex_digit (c / 16 / 16 / 16) (omega arith),
        hex_value-hex_digit (c / 16 / 16 % 16) (omega arith),
        hex_value-hex_digit (c / 16 % 16) (omega arith),
        hex_value-hex_digit (c % 16) (omega arith),
      )
      (omega arith)

short-short_letter : (c l : ℕ) → short_letter c ≡ some l → (l ≢ b'u') × (short l ≡ c)
unfolding short_letter short
short-short_letter c l h = ground arith

plain_lem : (c : ℕ) → short_letter c ≡ none → (c == b'"' ≡ false) × (c == b'\\' ≡ false)
unfolding short_letter
plain_lem c h = ground arith

is_unsafe-lt : (c : ℕ) → is_unsafe c ≡ true → c < 65536
unfolding is_unsafe
is_unsafe-lt c h = ground arith

-- Every character is read back from its escape.
next-escape_with :
    (o : Option ℕ) (c : ℕ) (s : Str)
    → short_letter c ≡ o
    → next (escape_with o c ++ s) ≡ some (c, s)
unfolding next escape_with unicode
next-escape_with (some l) c s e =
    let (ne, back) = short-short_letter c l e in short_escape l s ne ∙ ap (λ d. some (d, s)) back
next-escape_with none c s e = elim (Bool-cases (is_unsafe c)) [
  | inl unsafe ↦ rw unsafe (ap (λ d. some (d, s)) (long-hex_digits c (is_unsafe-lt c unsafe)))
  | inr safe ↦ let (p, q) = plain_lem c e in rw (safe, p, q)
]

next-escape : (c : ℕ) (s : Str) → next (escape c ++ s) ≡ some (c, s)
unfolding escape
next-escape c s = next-escape_with (short_letter c) c s refl

escape_injective : (c d : ℕ) (s t : Str) → escape c ++ s ≡ escape d ++ t → (c ≡ d) × (s ≡ t)
escape_injective c d s t h = let e = sym (next-escape c s) ∙ ap next h ∙ next-escape d t in (cc, cc)

next_quote : (s : Str) → next (b'"' ∷ s) ≡ none
unfolding next
next_quote s = refl

-- No escape begins with a quote, so the closing quote is not taken for a character.
quote-ne-escape : (c : ℕ) (s t : Str) → b'"' ∷ s ≢ escape c ++ t
quote-ne-escape c s t h = let e = sym (next_quote s) ∙ ap next h ∙ next-escape c t in cc

tail_eq : {a b : ℕ} {s t : Str} → a ∷ s ≡ b ∷ t → s ≡ t
tail_eq h = cc

-- Behind a quoted text the same text remains.
escape_all_injective :
    (s t u v : Str) → escape_all s ++ b'"' ∷ u ≡ escape_all t ++ b'"' ∷ v → (s ≡ t) × (u ≡ v)
unfolding escape_all
escape_all_injective [] [] u v h = (refl, cc)
escape_all_injective [] (d ∷ t) u v h =
    absurd (quote-ne-escape d u (escape_all t ++ b'"' ∷ v) (h ∙ append_assoc (escape d) _ _))
escape_all_injective (c ∷ s) [] u v h =
    absurd (quote-ne-escape c v (escape_all s ++ b'"' ∷ u) (sym h ∙ append_assoc (escape c) _ _))
escape_all_injective (c ∷ s) (d ∷ t) u v h =
    let (p, q) =
      escape_injective c d (escape_all s ++ b'"' ∷ u) (escape_all t ++ b'"' ∷ v)
        (sym (append_assoc (escape c) _ _) ∙ h ∙ append_assoc (escape d) _ _) in
    let (x, y) = escape_all_injective s t u v q in (cc, y)

quote_injective : (s t u v : Str) → quote s ++ u ≡ quote t ++ v → (s ≡ t) × (u ≡ v)
unfolding quote
quote_injective s t u v h =
    let e = tail_eq h in
    escape_all_injective s t u v (
      sym (append_assoc (escape_all s) (b'"' ∷ []) u)
      ∙ e
      ∙ append_assoc (escape_all t) (b'"' ∷ []) v)

-- One entry: a quoted key, a colon and a quoted value.
entry_injective :
    (k j v w s t : Str)
    → quote k ++ (b':' ∷ quote v ++ s) ≡ quote j ++ (b':' ∷ quote w ++ t)
    → ((k ≡ j) × (v ≡ w)) × (s ≡ t)
entry_injective k j v w s t h =
    let (p, q) = quote_injective k j (b':' ∷ quote v ++ s) (b':' ∷ quote w ++ t) h in
    let (x, y) = quote_injective v w s t (tail_eq q) in ((p, x), y)

cons_entry : {k j v w : Str} {m n : StringMap} → (k ≡ j) × (v ≡ w) → m ≡ n → (k, v) ∷ m ≡ (j, w) ∷ n
cons_entry e p = cc

entries_eq :
    (k j v w : Str) (m n : StringMap)
    → quote k ++ (b':' ∷ quote v ++ marshal_rest m) ≡ quote j ++ (b':' ∷ quote w ++ marshal_rest n)
    → (marshal_rest m ≡ marshal_rest n → m ≡ n)
    → (k, v) ∷ m ≡ (j, w) ∷ n
entries_eq k j v w m n h ih =
    let (e, r) = entry_injective k j v w (marshal_rest m) (marshal_rest n) h in cons_entry e (ih r)

head_eq : {a b : ℕ} {s t : Str} → a ∷ s ≡ b ∷ t → a ≡ b
head_eq h = cc

brace-ne-comma : {s t : Str} → b'}' ∷ s ≢ b',' ∷ t
brace-ne-comma h = omega (arith, head_eq h)

marshal_rest_injective : (m n : StringMap) → marshal_rest m ≡ marshal_rest n → m ≡ n
unfolding marshal_rest
marshal_rest_injective [] [] h = refl
marshal_rest_injective [] ((j, w) ∷ n) h = absurd (brace-ne-comma h)
marshal_rest_injective ((k, v) ∷ m) [] h = absurd (brace-ne-comma (sym h))
marshal_rest_injective ((k, v) ∷ m) ((j, w) ∷ n) h =
    entries_eq k j v w m n (tail_eq h) (marshal_rest_injective m n)

brace-ne-quote : (s t : Str) → b'}' ∷ [] ≢ quote s ++ t
unfolding quote
brace-ne-quote s t h = omega (arith, head_eq h)

marshal_entries_injective : (m n : StringMap) → marshal_entries m ≡ marshal_entries n → m ≡ n
unfolding marshal_entries
marshal_entries_injective [] [] h = refl
marshal_entries_injective [] ((j, w) ∷ n) h = absurd (brace-ne-quote j _ h)
marshal_entries_injective ((k, v) ∷ m) [] h = absurd (brace-ne-quote k _ (sym h))
marshal_entries_injective ((k, v) ∷ m) ((j, w) ∷ n) h =
    entries_eq k j v w m n h (marshal_rest_injective m n)

-- Maps with the same JSON are equal.
pub marshal_injective : (m n : StringMap) → marshal (some m) ≡ marshal (some n) → m ≡ n
unfolding marshal
marshal_injective m n h = marshal_entries_injective m n (tail_eq h)

-- No map has the JSON of a nil map.
pub marshal-ne-null : (m : StringMap) → marshal (some m) ≢ marshal none
unfolding marshal
marshal-ne-null m h = omega (arith, head_eq h)
