-- ===== src/Go/Decimal.antt =====
-- Decimal numbers: the print of an `int` and `strconv.Atoi`.
use mathlib.Core.List.{cons-ne-nil, concat-ne-nil}
use provider_rabbitmq.Prelude.{
  ℕ, zero, suc, ◌+◌, ◌-◌, ◌*◌, ◌/◌, ◌%◌, ◌^◌, ◌≤◌, ◌<◌, ◌≡◌, ◌≢◌, refl, ap, ◌∙◌, Bool, true, false,
  ◌||◌, Option, none, some, [], ◌∷◌, ◌++◌, append_assoc, append-nil, sym, arith, Str, ltb, ◌==◌,
  if◌then◌else◌, All, All-append, Bool-cases, inl, inr,
}

-- A Go `int`: `negsuc n` is -(n + 1).
pub data ℤ : Type 0 where
  pos : ℕ → ℤ
  negsuc : ℕ → ℤ

-- An `int` has 64 bits.
abbrev pub InRange : ℤ → Type 0
InRange (pos n) = n < 2 ^ 63
InRange (negsuc n) = n < 2 ^ 63

-- The decimal digits of `n`, most significant first; `n + 1` rounds are enough.
unfoldable pub digits_fuel : ℕ → ℕ → Str
digits_fuel zero n = []
digits_fuel (suc f) n =
    let rest = digits_fuel f (n / 10) ++ (b'0' + n % 10) ∷ [] in
    if ltb n 10 then (b'0' + n) ∷ [] else rest

unfoldable pub print_nat : ℕ → Str
unfolding digits_fuel
print_nat n = digits_fuel (suc n) n

unfoldable pub print_int : ℤ → Str
unfolding print_nat
print_int (pos n) = print_nat n
print_int (negsuc n) = b'-' ∷ print_nat (suc n)

-- The digit loop of `Atoi` and `ParseUint`; the range is tested on the exact value afterwards.
unfoldable pub parse_digits : Str → ℕ → Option ℕ
parse_digits [] n = some n
parse_digits (c ∷ s) n =
    let rest = parse_digits s (n * 10 + (c - b'0')) in
    if ltb c b'0' || ltb b'9' c then none else rest

parse_unsigned : Str → Option ℕ
unfolding parse_digits
parse_unsigned [] = none
parse_unsigned (c ∷ s) = parse_digits (c ∷ s) 0

-- The sign put on, and the test of the 64-bit range.
signed : Bool → ℕ → Option ℤ
signed false n = if ltb n (2 ^ 63) then some (pos n) else none
signed true zero = some (pos 0)
signed true (suc n) = if ltb n (2 ^ 63) then some (negsuc n) else none

signed_of : Bool → Option ℕ → Option ℤ
unfolding signed
signed_of neg none = none
signed_of neg (some n) = signed neg n

-- `strconv.Atoi`; `none` is a syntax or a range error.
unfoldable pub atoi : Str → Option ℤ
unfolding parse_unsigned signed_of
atoi [] = none
atoi (c ∷ s) =
    if c == b'-'
    then signed_of true (parse_unsigned s)
    else if c == b'+'
    then signed_of false (parse_unsigned s)
    else signed_of false (parse_unsigned (c ∷ s))

abbrev pub IsDigit : ℕ → Type 0
IsDigit c = (b'0' ≤ c) × (c ≤ b'9')

digits_fuel-digits : (f n : ℕ) → All IsDigit (digits_fuel f n)
unfolding digits_fuel
digits_fuel-digits zero n = tt
digits_fuel-digits (suc f) n = elim (Bool-cases (ltb n 10)) [
  | inl small ↦ rw small (ground arith)
  | inr large ↦ rw large (
      All-append IsDigit (digits_fuel f (n / 10)) ((b'0' + n % 10) ∷ [])
        (digits_fuel-digits f (n / 10)) (omega arith))
]

pub print_nat-digits : (n : ℕ) → All IsDigit (print_nat n)
unfolding print_nat
print_nat-digits n = digits_fuel-digits (suc n) n

parse-digits_fuel :
    (f n : ℕ) (r : Str) → n < f → parse_digits (digits_fuel f n ++ r) 0 ≡ parse_digits r n
unfolding digits_fuel parse_digits
parse-digits_fuel zero n r h = elim h [ ]
parse-digits_fuel (suc f) n r h = elim (Bool-cases (ltb n 10)) [
  | inl small ↦ ground arith
  | inr large ↦
      rw (large, append_assoc)
        (rw (parse-digits_fuel f (n / 10) ((b'0' + n % 10) ∷ r) (ground arith)) (ground arith))
]

digits_fuel-ne-nil : (f n : ℕ) → n < f → digits_fuel f n ≢ []
unfolding digits_fuel
digits_fuel-ne-nil zero n h = elim h [ ]
digits_fuel-ne-nil (suc f) n h = elim (Bool-cases (ltb n 10)) [
  | inl small ↦ rw small (cons-ne-nil (b'0' + n) [])
  | inr large ↦ rw large (concat-ne-nil (b'0' + n % 10) (digits_fuel f (n / 10)))
]

pub print_nat-ne-nil : (n : ℕ) → print_nat n ≢ []
unfolding print_nat
print_nat-ne-nil n = digits_fuel-ne-nil (suc n) n (omega arith)

parse-digits-print_nat-append :
    (n : ℕ) (r : Str) → parse_digits (print_nat n ++ r) 0 ≡ parse_digits r n
unfolding print_nat
parse-digits-print_nat-append n r = parse-digits_fuel (suc n) n r (omega arith)

pub parse-digits-print_nat : (n : ℕ) → parse_digits (print_nat n) 0 ≡ some n
unfolding parse_digits
parse-digits-print_nat n =
    ap (λ s. parse_digits s 0) (sym (append-nil (print_nat n))) ∙ parse-digits-print_nat-append n []

parse_unsigned-digits : (s : Str) → s ≢ [] → parse_unsigned s ≡ parse_digits s 0
unfolding parse_unsigned
parse_unsigned-digits [] h = absurd (h refl)
parse_unsigned-digits (c ∷ s) h = refl

parse-print_nat : (n : ℕ) → parse_unsigned (print_nat n) ≡ some n
parse-print_nat n =
    parse_unsigned-digits (print_nat n) (print_nat-ne-nil n) ∙ parse-digits-print_nat n

-- A text that begins with a digit has no sign.
atoi_unsigned : (s : Str) → All IsDigit s → s ≢ [] → atoi s ≡ signed_of false (parse_unsigned s)
unfolding atoi
atoi_unsigned [] _ h = absurd (h refl)
atoi_unsigned (c ∷ s) (d, _) _ = ground arith

-- Every 64-bit integer is read back from its decimal print.
pub atoi-print_int : (z : ℤ) → InRange z → atoi (print_int z) ≡ some z
unfolding print_int signed_of
atoi-print_int (pos n) h =
    atoi_unsigned (print_nat n) (print_nat-digits n) (print_nat-ne-nil n)
    ∙ rw (parse-print_nat n) (ground arith)
atoi-print_int (negsuc n) h = unfold atoi in rw (parse-print_nat (suc n)) (ground arith)

parse_digits_sound : (s : Str) (n : ℕ) {r : ℕ} → parse_digits s n ≡ some r → All IsDigit s
unfolding parse_digits
parse_digits_sound [] n h = tt
parse_digits_sound (c ∷ s) n {r} h =
    ground (arith, parse_digits_sound s (n * 10 + (c - b'0')) {r = r})

parse_unsigned_sound : (s : Str) {r : ℕ} → parse_unsigned s ≡ some r → All IsDigit s
unfolding parse_unsigned
parse_unsigned_sound [] h = tt
parse_unsigned_sound (c ∷ s) h = parse_digits_sound (c ∷ s) 0 h

signed_of-some :
    (neg : Bool) (o : Option ℕ) {z : ℤ} → signed_of neg o ≡ some z → (r : ℕ) × (o ≡ some r)
unfolding signed_of
signed_of-some neg none h = absurd (cc)
signed_of-some neg (some r) h = (r, refl)

signed_of_sound :
    (neg : Bool) (s : Str) {z : ℤ} → signed_of neg (parse_unsigned s) ≡ some z → All IsDigit s
signed_of_sound neg s h =
    let (r, e) = signed_of-some neg (parse_unsigned s) h in parse_unsigned_sound s e

-- What `Atoi` accepts are digits behind the first character.
pub atoi_sound : (c : ℕ) (s : Str) {z : ℤ} → atoi (c ∷ s) ≡ some z → All IsDigit s
unfolding atoi
atoi_sound c s h = elim (Bool-cases (c == b'-')) [
  | inl minus ↦ signed_of_sound true s (rw minus at h)
  | inr other ↦ elim (Bool-cases (c == b'+')) [
    | inl plus ↦ signed_of_sound false s (rw (other, plus) at h)
    | inr digit ↦ (signed_of_sound false (c ∷ s) (rw (other, digit) at h)).1
  ]
]

signed-InRange : (neg : Bool) (n : ℕ) (z : ℤ) → signed neg n ≡ some z → InRange z
unfolding signed
signed-InRange false n (pos m) h = ground arith
signed-InRange false n (negsuc m) h = absurd (ground arith)
signed-InRange true zero (pos m) h = ground arith
signed-InRange true zero (negsuc m) h = absurd (ground arith)
signed-InRange true (suc n) (pos m) h = absurd (ground arith)
signed-InRange true (suc n) (negsuc m) h = ground arith

signed_of-InRange : (neg : Bool) (o : Option ℕ) {z : ℤ} → signed_of neg o ≡ some z → InRange z
unfolding signed_of
signed_of-InRange neg none h = absurd (cc)
signed_of-InRange neg (some n) {z} h = signed-InRange neg n z h

-- What `Atoi` reads has 64 bits.
pub atoi-InRange : (s : Str) {z : ℤ} → atoi s ≡ some z → InRange z
unfolding atoi
atoi-InRange [] h = absurd (cc)
atoi-InRange (c ∷ s) h = elim (Bool-cases (c == b'-')) [
  | inl minus ↦ signed_of-InRange true (parse_unsigned s) (rw minus at h)
  | inr other ↦ elim (Bool-cases (c == b'+')) [
    | inl plus ↦ signed_of-InRange false (parse_unsigned s) (rw (other, plus) at h)
    | inr digit ↦ signed_of-InRange false (parse_unsigned (c ∷ s)) (rw (other, digit) at h)
  ]
]
