-- ===== src/Prelude/Equivalences.antt =====
-- Equivalences of statements, put together from equivalences of their parts.
use mathlib.Core.Path.{◌≡◌, refl}
use mathlib.Core.Logic.{◌↔◌, ◌⊎◌, inl, inr}
use mathlib.Core.Bool.{Bool, true, false}

-- The test that fails decides the negation.
pub false_iff {ℓ} : {P : Type ℓ} (b : Bool) → (b ≡ true) ↔ P → (b ≡ false) ↔ (¬ P)
false_iff true (to, from) = ((λ h. absurd (cc)), (λ n. absurd (n (to refl))))
false_iff false (to, from) = ((λ h p. absurd (cc (from p))), (λ n. refl))

pub pair_iff {a b c d} :
    {A : Type a} {B : Type b} {C : Type c} {D : Type d} → A ↔ C → B ↔ D → (A × B) ↔ (C × D)
pair_iff (f, f') (g, g') = ((λ (x, y). (f x, g y)), (λ (x, y). (f' x, g' y)))

pub choice_iff {a b c d} :
    {A : Type a} {B : Type b} {C : Type c} {D : Type d} → A ↔ C → B ↔ D → (A ⊎ B) ↔ (C ⊎ D)
choice_iff {A = A} {B} {C} {D} (f, f') (g, g') = (to, from)
  where
    to : A ⊎ B → C ⊎ D
    to (inl x) = inl (f x)
    to (inr y) = inr (g y)

    from : C ⊎ D → A ⊎ B
    from (inl x) = inl (f' x)
    from (inr y) = inr (g' y)

pub then_iff {a b c} : {A : Type a} {B : Type b} {C : Type c} → A ↔ B → B ↔ C → A ↔ C
then_iff (f, f') (g, g') = ((λ x. g (f x)), (λ z. f' (g' z)))
