-- ===== src/Prelude/Tests.antt =====
-- Boolean tests on the native numbers, and the conditional.
use Prim.Native.Nat.{ℕ, ◌<◌, compare, Ordering}
use mathlib.Core.Path.{◌≡◌, refl}
use mathlib.Core.Logic.{◌↔◌, ◌⊎◌, inl, inr}
use mathlib.Core.Bool.{Bool, true, false, not}
use mathlib.Core.Option.{Option, none, some}
use native.Mathlib.Omega.{arith}

abbrev pub ltb : ℕ → ℕ → Bool
ltb a b = elim (compare a b) [ Ordering.lt ↦ true | _ ↦ false ]

abbrev pub leb : ℕ → ℕ → Bool
leb a b = elim (compare a b) [ Ordering.gt ↦ false | _ ↦ true ]

infix 50 ◌==◌
abbrev pub ◌==◌ : ℕ → ℕ → Bool
a == b = elim (compare a b) [ Ordering.eq ↦ true | _ ↦ false ]

infix 1 if◌then◌else◌
abbrev pub if◌then◌else◌ {ℓ} : {A : Type ℓ} → Bool → A → A → A
if true then x else y = x
if false then x else y = y

-- `if field == nil { field = value }` on a pointer or a map.
abbrev pub fill {ℓ} : {A : Type ℓ} → Option A → A → Option A
fill none a = some a
fill (some v) a = some v

pub ==_iff : (a b : ℕ) → ((a == b) ≡ true) ↔ (a ≡ b)
==_iff a b = ground arith

pub ltb→lt : (a b : ℕ) → ltb a b ≡ true → a < b
ltb→lt a b h = ground arith

-- To split on a computed value and keep the equation.
pub Bool-cases : (b : Bool) → (b ≡ true) ⊎ (b ≡ false)
Bool-cases true = inl refl
Bool-cases false = inr refl

pub Option-cases {ℓ} : {A : Type ℓ} (o : Option A) → (o ≡ none) ⊎ ((a : A) × (o ≡ some a))
Option-cases none = inl refl
Option-cases (some a) = inr (a, refl)

-- `if !b { return false }` before a last result is a conjunction.
pub unless_iff : (b r : Bool) → ((if not b then false else r) ≡ true) ↔ (b ≡ true) × (r ≡ true)
unless_iff true r = ((λ h. (refl, h)), (λ h. h.1))
unless_iff false r = ((λ h. absurd (cc)), (λ h. absurd (cc)))

-- A conjunction of tests decides a conjunction of statements.
pub unless_both {ℓ κ} :
    {P : Type ℓ} {Q : Type κ} (b r : Bool)
    → (b ≡ true) ↔ P
    → (r ≡ true) ↔ Q
    → ((if not b then false else r) ≡ true) ↔ P × Q
unless_both b r p q = (
  (λ h. let (x, y) = (unless_iff b r).0 h in (p.0 x, q.0 y)),
  (λ (x, y). (unless_iff b r).1 (p.1 x, q.1 y)),
)
