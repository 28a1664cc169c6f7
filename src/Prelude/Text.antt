-- ===== src/Prelude/Text.antt =====
-- A Go string as the list of its code points (every string here is valid UTF-8), its `==`, and
-- string maps. A Go map is the list of its entries in ascending order of the keys, which is the
-- one list that the map has: equal maps are equal lists, and a loop over the map with one write
-- for each key is a map over the entries.
use Prim.Native.Nat.{ℕ}
use Prim.Native.Char.{code}
use Prim.Native.String.{String}
use mathlib.Core.Path.{◌≡◌, refl}
use mathlib.Core.Logic.{◌↔◌, ◌≢◌}
use mathlib.Core.Bool.{Bool, true, false, ◌&&◌}
use mathlib.Core.List.{List, [], ◌∷◌}
use mathlib.Core.Option.{Option, none, some}
use native.Mathlib.Omega.{arith}
use provider_rabbitmq.Prelude.Tests.{◌==◌, if◌then◌else◌}
use provider_rabbitmq.Prelude.Lists.{All}

abbrev pub Str : Type 0
Str = List ℕ

-- The code points of a literal.
abbrev pub codes : String → Str
codes String.[] = []
codes (String.◌∷◌ c s) = code c ∷ codes s

-- Go's `==` on strings.
unfoldable pub str_eq : Str → Str → Bool
str_eq [] [] = true
str_eq (a ∷ s) (b ∷ t) = a == b && str_eq s t
str_eq _ _ = false

pub str_eq_iff : (s t : Str) → (str_eq s t ≡ true) ↔ (s ≡ t)
unfolding str_eq
str_eq_iff [] [] = ((λ _. refl), (λ _. refl))
str_eq_iff [] (b ∷ t) = ground arith
str_eq_iff (a ∷ s) [] = ground arith
str_eq_iff (a ∷ s) (b ∷ t) = ground (arith, str_eq_iff s t)

pub str_eq_refl : (s : Str) → str_eq s s ≡ true
str_eq_refl s = (str_eq_iff s s).1 refl

-- No code point of the text is `c`.
abbrev pub Lacks : ℕ → Str → Type 0
Lacks c = All (λ d. d ≢ c)

abbrev pub StringMap : Type 0
StringMap = List (Str × Str)

-- `m[k]` with the second result: whether the key is there.
unfoldable pub lookup : Str → StringMap → Option Str
lookup k [] = none
lookup k ((j, v) ∷ m) = if str_eq k j then some v else lookup k m

-- `m[k]`: the empty string for a missing key.
unfoldable pub index : Str → StringMap → Str
index k m = elim (lookup k m) [ none ↦ [] | some v ↦ v ]

pub index-lookup : (k : Str) (m : StringMap) {v : Str} → lookup k m ≡ some v → index k m ≡ v
unfolding index
index-lookup k m h = rw (h, index)
