-- ===== src/Go/Float.antt =====
-- `fmt.Sprintf("%v", x)` for a `float64`: the shortest `%g`. A float64 stands here by the shortest
-- decimal that strconv finds for it: 0.d1d2...dn * 10^point, the digits without trailing zeros.
pub mod Integers
use provider_rabbitmq.Prelude.{
  ℕ, zero, suc, ◌+◌, ◌-◌, ◌*◌, ◌/◌, ◌%◌, ◌^◌, ◌≤◌, ◌<◌, ◌≡◌, ◌≢◌, refl, ap, sym, ◌∙◌, ◌↔◌, Bool,
  true, false, List, [], ◌∷◌, ◌++◌, append_assoc, append-nil, arith, Str, ltb, leb, ◌==◌,
  if◌then◌else◌, All, All-right, length, replicate, length-append,
}
use provider_rabbitmq.Go.Decimal.{ℤ, pos, negsuc, print_nat, print_int, IsDigit, print_nat-digits}

pub record Float : Type 0 where
  pub negative : Bool
  pub digits : Str
  pub point : ℤ

-- At least two digits of exponent.
exponent : ℕ → Str
exponent n = if ltb n 10 then b'0' ∷ print_nat n else print_nat n

-- `%e` with the shortest precision: d.ddde+XX. `sign` is the exponent's.
format_e : Str → ℕ → ℕ → Str
unfolding exponent
format_e [] sign e = b'0' ∷ b'e' ∷ sign ∷ exponent e
format_e (d ∷ []) sign e = d ∷ b'e' ∷ sign ∷ exponent e
format_e (d ∷ c ∷ ds) sign e = d ∷ b'.' ∷ (c ∷ ds) ++ b'e' ∷ sign ∷ exponent e

-- `%f` for 0 < point: digits up to the point, padded by zeros, and the rest behind a point.
integral : ℕ → Str → Str
integral zero [] = []
integral zero (d ∷ ds) = b'.' ∷ d ∷ ds
integral (suc k) [] = b'0' ∷ integral k []
integral (suc k) (d ∷ ds) = d ∷ integral k ds

-- `%f` for point ≤ 0, with the zeros behind the point.
fractional : ℕ → Str → Str
fractional places [] = b'0' ∷ []
fractional places (d ∷ ds) = b'0' ∷ b'.' ∷ replicate places b'0' ++ d ∷ ds

-- The exponent is point - 1; `%e` is used below -4 and from 6 (the `eprec` of the shortest form).
magnitude : Str → ℤ → Str
unfolding format_e integral fractional
magnitude ds (pos zero) = fractional 0 ds
magnitude ds (pos (suc e)) = if ltb e 6 then integral (suc e) ds else format_e ds b'+' e
magnitude ds (negsuc k) = if ltb k 3 then fractional (suc k) ds else format_e ds b'-' (k + 2)

unfoldable pub print_float : Float → Str
unfolding magnitude
print_float x = if x.negative then b'-' ∷ magnitude x.digits x.point else magnitude x.digits x.point

-- A text without its trailing zeros.
drop_zero : ℕ → Str → Str
drop_zero d [] = if d == b'0' then [] else d ∷ []
drop_zero d (c ∷ s) = d ∷ c ∷ s

strip : Str → Str
unfolding drop_zero
strip [] = []
strip (d ∷ s) = drop_zero d (strip s)

point_of : Str → ℕ → ℤ
point_of [] n = pos 0
point_of (_ ∷ _) n = pos n

abbrev nat_float : Bool → ℕ → Float
nat_float neg n = record {
  negative = neg;
  digits = strip (print_nat n);
  point = point_of (strip (print_nat n)) (length (print_nat n));
}

-- The float64 that an integer of at most 15 digits becomes, which is exact: 15 digits tell any two
-- such numbers apart, so their shortest decimal is the integer's own, less trailing zeros. The
-- rounding of larger integers is not this function's.
unfoldable pub float_of_int : ℤ → Float
unfolding strip point_of
float_of_int (pos n) = nat_float false n
float_of_int (negsuc n) = nat_float true (suc n)
