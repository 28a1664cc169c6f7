-- ===== src/Go/Url.antt =====
-- `url.PathUnescape`: `%XX` becomes the byte XX, everything else stays; an error for a `%` without
-- two hexadecimal digits. A byte above 127 is kept as one code point, which is exact for ASCII.
use provider_rabbitmq.Prelude.{
  ℕ, ◌+◌, ◌-◌, ◌*◌, Option, none, some, [], ◌∷◌, ◌≡◌, refl, Str, codes, leb, ◌&&◌, ◌==◌,
  if◌then◌else◌,
}

unhex : ℕ → Option ℕ
unhex c =
    if leb b'0' c && leb c b'9'
    then some (c - b'0')
    else if leb b'a' c && leb c b'f'
    then some (c - b'a' + 10)
    else if leb b'A' c && leb c b'F'
    then some (c - b'A' + 10)
    else none

-- One decoded byte in front of the rest, if all of it is valid.
put : Option ℕ → Option ℕ → Option Str → Option Str
put (some a) (some b) (some s) = some ((16 * a + b) ∷ s)
put _ _ _ = none

keep : ℕ → Option Str → Option Str
keep c (some s) = some (c ∷ s)
keep c none = none

unfoldable pub path_unescape : Str → Option Str
unfolding unhex put keep
path_unescape [] = some []
path_unescape (c ∷ []) = if c == b'%' then none else some (c ∷ [])
path_unescape (c ∷ a ∷ []) = if c == b'%' then none else keep c (path_unescape (a ∷ []))
path_unescape (c ∷ a ∷ b ∷ s) =
    let escaped = put (unhex a) (unhex b) (path_unescape s) in
    let plain = keep c (path_unescape (a ∷ b ∷ s)) in if c == b'%' then escaped else plain

unescape_example : path_unescape (codes "a%252Fb%23~") ≡ some (codes "a%2Fb#~")
unfolding path_unescape
unescape_example = refl
