-- ===== src/Go/Float/Integers.antt =====
-- Which integers keep their decimal print when they are read back as a float64.
use mathlib.Core.List.{cons-ne-nil}
use mathlib.Core.Path.{subst}
use native.Mathlib.Nat.{pow-suc}
use provider_rabbitmq.Prelude.{
  ℕ, zero, suc, ◌/◌, ◌^◌, ◌≤◌, ◌<◌, ◌≡◌, ◌≢◌, refl, ap, sym, ◌↔◌, Bool, if◌then◌else◌, true, false,
  [], ◌∷◌, arith, Str, ltb, All, length, length-append, some, ltb→lt, Bool-cases, inl, inr,
}
use provider_rabbitmq.Go.Decimal.{
  ℤ, pos, negsuc, atoi, atoi_sound, digits_fuel, print_nat, print_int, IsDigit, print_nat-digits,
  parse_digits, parse-digits-print_nat,
}
use provider_rabbitmq.Go.Float.{
  Float, format_e, integral, magnitude, print_float, drop_zero, strip, point_of, float_of_int,
}

-- Padding by zeros undoes the stripping.
integral-strip : (s : Str) → integral (length s) (strip s) ≡ s
unfolding integral strip
integral-strip [] = refl
integral-strip (d ∷ s) = step (strip s) (integral-strip s)
  where
    step : (r : Str) → integral (length s) r ≡ s → integral (suc (length s)) (drop_zero d r) ≡ d ∷ s
    step [] h = ground arith
    step (c ∷ r) h = ap (λ t. d ∷ t) h

-- A text that is stripped to nothing is read as zero.
parse-strip : (s : Str) → strip s ≡ [] → parse_digits s 0 ≡ some 0
unfolding strip parse_digits
parse-strip [] h = refl
parse-strip (d ∷ s) h = step (strip s) h (parse-strip s)
  where
    step :
        (r : Str)
        → drop_zero d r ≡ []
        → (r ≡ [] → parse_digits s 0 ≡ some 0)
        → parse_digits (d ∷ s) 0 ≡ some 0
    step [] q ih = ground (arith, ih refl)
    step (c ∷ r) q ih = absurd (cons-ne-nil d (c ∷ r) q)

length-digits_small : (k f n : ℕ) → n < 10 ^ suc k → length (digits_fuel f n) ≤ suc k
unfolding digits_fuel
length-digits_small k zero n h = omega arith
length-digits_small zero (suc f) n h = ground arith
length-digits_small (suc k) (suc f) n h = elim (Bool-cases (ltb n 10)) [
  | inl small ↦ rw small (omega arith)
  | inr large ↦
      rw (large, length-append)
        (omega (arith, length-digits_small k f (n / 10) (omega (arith, pow-suc 10 (suc k)))))
]

pow_pos : (k : ℕ) → 1 ≤ 10 ^ k
pow_pos zero = omega arith
pow_pos (suc k) = omega (arith, pow-suc 10 k, pow_pos k)

ten_le : (k n : ℕ) → ltb n 10 ≡ true → ¬ (10 ^ suc k ≤ n)
ten_le k n small h = omega (arith, pow-suc 10 k, ltb→lt n 10 small, pow_pos k)

length-digits_large : (k f n : ℕ) → n < f → 10 ^ k ≤ n → k < length (digits_fuel f n)
unfolding digits_fuel
length-digits_large k zero n lt h = elim lt [ ]
length-digits_large zero (suc f) n lt h = elim (Bool-cases (ltb n 10)) [
  | inl small ↦ rw small (omega arith)
  | inr large ↦ rw (large, length-append) (omega arith)
]
length-digits_large (suc k) (suc f) n lt h = elim (Bool-cases (ltb n 10)) [
  | inl small ↦ absurd (ten_le k n small h)
  | inr large ↦
      rw (large, length-append)
        (omega
          (arith, length-digits_large k f (n / 10) (ground arith) (omega (arith, pow-suc 10 k))))
]

-- The number of digits, at the bound where the exponent form begins.
length-print_nat : (n : ℕ) → (length (print_nat n) ≤ 6) ↔ (n < 10 ^ 6)
unfolding print_nat
length-print_nat n = (below, length-digits_small 5 (suc n) n)
  where
    below : length (digits_fuel (suc n) n) ≤ 6 → n < 10 ^ 6
    below h = elim (Bool-cases (ltb n (10 ^ 6))) [
      | inl small ↦ ltb→lt n (10 ^ 6) small
      | inr large ↦
          absurd (omega (arith, length-digits_large 6 (suc n) n (omega arith) (ground arith)))
    ]

-- The exponent form holds an `e`, which is no digit.
format_e_not_digits : (ds : Str) (s e : ℕ) → ¬ (All IsDigit (format_e ds s e))
unfolding format_e
format_e_not_digits [] s e h = omega (arith, h.1.0)
format_e_not_digits (d ∷ []) s e h = omega (arith, h.1.0)
format_e_not_digits (d ∷ c ∷ ds) s e h = omega arith

strip-ne-nil : (n : ℕ) → n ≢ 0 → strip (print_nat n) ≢ []
strip-ne-nil n h q = h (cc (parse-strip (print_nat n) q, parse-digits-print_nat n))

-- A print of digits agrees with the number's own exactly up to six of them.
magnitude_digits :
    (r s : Str)
    → integral (length s) r ≡ s
    → r ≢ []
    → All IsDigit s
    → (magnitude r (point_of r (length s)) ≡ s) ↔ (length s ≤ 6)
unfolding magnitude point_of integral
magnitude_digits [] s h ne d = absurd (ne refl)
magnitude_digits (c ∷ r) [] h ne d = absurd (cons-ne-nil _ _ h)
magnitude_digits (c ∷ r) (b ∷ s) h ne d = elim (Bool-cases (ltb (length s) 6)) [
  | inl small ↦ ((λ _. ground arith), (λ _. rw small h))
  | inr large ↦ rw large (
    (λ q. absurd (format_e_not_digits (c ∷ r) b'+' (length s) (subst (All IsDigit) (sym q) d))),
    (λ le. absurd (ground arith)),
  )
]

magnitude_nat :
    (n : ℕ)
    → (magnitude (strip (print_nat n)) (point_of (strip (print_nat n)) (length (print_nat n)))
        ≡ print_nat n)
      ↔ (n < 10 ^ 6)
magnitude_nat zero = ((λ _. omega arith), (λ _. unfold magnitude strip point_of print_nat in refl))
magnitude_nat (suc m) =
    let n = suc m in
    let (to, from) =
      magnitude_digits (strip (print_nat n)) (print_nat n) (integral-strip (print_nat n))
        (strip-ne-nil n (omega arith)) (print_nat-digits n) in
    ((λ h. (length-print_nat n).0 (to h)), (λ h. from ((length-print_nat n).1 h)))

-- At most six digits, whatever the sign.
abbrev pub IsSmall : ℤ → Type 0
IsSmall (pos n) = n < 10 ^ 6
IsSmall (negsuc n) = suc n < 10 ^ 6

-- An integer that comes back as a float64 prints as it did exactly when it has at most six digits.
pub print-float_of_int_iff : (z : ℤ) → (print_float (float_of_int z) ≡ print_int z) ↔ IsSmall z
unfolding print_float float_of_int print_int
print-float_of_int_iff (pos n) = magnitude_nat n
print-float_of_int_iff (negsuc n) =
    let (to, from) = magnitude_nat (suc n) in ((λ h. to (cc h)), (λ h. ap (λ t. b'-' ∷ t) (from h)))

-- The exponent form, behind its first digit.
format_e_tail :
    (d : ℕ) (ds : Str) (s e : ℕ) → (t : Str) × (format_e (d ∷ ds) s e ≡ d ∷ t) × (¬ (All IsDigit t))
unfolding format_e
format_e_tail d [] s e = (_, refl, λ h. omega arith)
format_e_tail d (c ∷ ds) s e = (_, refl, λ h. omega arith)

-- A text that is not digits behind its first character.
abbrev HasTail : Str → Type 0
HasTail s = (d : ℕ) × (t : Str) × (s ≡ d ∷ t) × (¬ (All IsDigit t))

magnitude_large : (r : Str) (k : ℕ) → r ≢ [] → 6 < k → HasTail (magnitude r (point_of r k))
unfolding magnitude point_of
magnitude_large [] k ne h = absurd (ne refl)
magnitude_large (c ∷ r) zero ne h = elim h [ ]
magnitude_large (c ∷ r) (suc k) ne h =
    let (t, e, no_digits) = format_e_tail c r b'+' k in
    let large : ltb k 6 ≡ false = ground arith in rw large (c, t, e, no_digits)

nat_large :
    (n : ℕ)
    → 10 ^ 6 ≤ n
    → HasTail
        (magnitude (strip (print_nat n)) (point_of (strip (print_nat n)) (length (print_nat n))))
unfolding print_nat
nat_large n h =
    magnitude_large (strip (print_nat n)) (length (print_nat n)) (strip-ne-nil n (omega arith))
      (length-digits_large 6 (suc n) n (omega arith) h)

not_accepted : (s : Str) {z : ℤ} → HasTail s → ¬ (atoi s ≡ some z)
not_accepted s {z} (d, t, e, no_digits) h =
    no_digits (atoi_sound d t (subst (λ u. atoi u ≡ some z) e h))

negative_not_accepted : (s : Str) {z : ℤ} → HasTail s → ¬ (atoi (b'-' ∷ s) ≡ some z)
negative_not_accepted s {z} (d, t, e, no_digits) h =
    no_digits (subst (All IsDigit) e (atoi_sound b'-' s h)).1

-- What a float64 prints is read by `Atoi` only up to six digits.
pub atoi-print_float : (i : ℤ) {z : ℤ} → atoi (print_float (float_of_int i)) ≡ some z → IsSmall i
unfolding print_float float_of_int
atoi-print_float (pos n) h = elim (Bool-cases (ltb n (10 ^ 6))) [
  | inl small ↦ ltb→lt n (10 ^ 6) small
  | inr large ↦ absurd (not_accepted _ (nat_large n (ground arith)) h)
]
atoi-print_float (negsuc n) h = elim (Bool-cases (ltb (suc n) (10 ^ 6))) [
  | inl small ↦ ltb→lt (suc n) (10 ^ 6) small
  | inr large ↦ absurd (negative_not_accepted _ (nat_large (suc n) (ground arith)) h)
]

-- A float64 whose integral part has at least 15 digits.
abbrev pub IsLarge : Float → Type 0
IsLarge x = (x.digits ≢ []) × ((k : ℕ) × (x.point ≡ pos k) × (15 ≤ k))

large-HasTail : (ds : Str) (k : ℕ) → ds ≢ [] → 15 ≤ k → HasTail (magnitude ds (pos k))
unfolding magnitude
large-HasTail [] k ne h = absurd (ne refl)
large-HasTail (d ∷ ds) zero ne h = elim h [ ]
large-HasTail (d ∷ ds) (suc k) ne h =
    let (t, e, no_digits) = format_e_tail d ds b'+' k in
    let large : ltb k 6 ≡ false = ground arith in rw large (d, t, e, no_digits)

-- Such a float64 prints with an exponent, which `Atoi` does not read.
pub large_unread : (x : Float) {z : ℤ} → IsLarge x → ¬ (atoi (print_float x) ≡ some z)
unfolding print_float
large_unread x {z} (ne, (k, at, large)) h = by x.negative (subst (λ p. Read p) at h)
  where
    Read : ℤ → Type 0
    Read p =
        atoi (if x.negative then b'-' ∷ magnitude x.digits p else magnitude x.digits p) ≡ some z

    by :
        (negative : Bool)
        → ¬ (
            atoi
              (if negative then b'-' ∷ magnitude x.digits (pos k) else magnitude x.digits (pos k))
            ≡ some z)
    by true e = negative_not_accepted _ (large-HasTail x.digits k ne large) e
    by false e = not_accepted _ (large-HasTail x.digits k ne large) e
