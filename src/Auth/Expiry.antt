-- ===== src/Auth/Expiry.antt =====
-- TokenService.parseExpiry of src/modules/auth/token.service.ts: how long a token lasts. Numbers
-- beyond 2 ^ 53, where parseInt rounds, are exact here.
pub mod Printing
use Prim.Native.Char.{code}
use payment_wallet_system.Prelude.{
  ℕ, ◌+◌, ◌-◌, ◌*◌, String, Option, none, some, Bool, ◌&&◌, leb, ◌==◌, if◌then◌else◌,
}

unfoldable pub is_digit : ℕ → Bool
is_digit c = leb b'0' c && leb c b'9'

-- Milliseconds of the units s, m, h and d.
unfoldable pub multiplier : ℕ → Option ℕ
multiplier c =
    if c == b's'
    then some 1000
    else if c == b'm'
    then some (60 * 1000)
    else if c == b'h'
    then some (60 * 60 * 1000)
    else if c == b'd'
    then some (24 * 60 * 60 * 1000)
    else none

abbrev times : ℕ → Option ℕ → Option ℕ
times n none = none
times n (some m) = some (n * m)

-- The unit ends the text.
abbrev finish : ℕ → ℕ → String → Option ℕ
finish n c String.[] = times n (multiplier c)
finish n c (String.◌∷◌ d s) = none

-- Reads on after the digits of `n`.
unfoldable pub parse_from : ℕ → String → Option ℕ
unfolding is_digit multiplier
parse_from n String.[] = none
parse_from n (String.◌∷◌ c s) =
    let more = parse_from (n * 10 + (code c - 48)) s in
    if is_digit (code c) then more else finish n (code c) s

-- /^([1-9]\d*)([smhd])$/, and the product; `none` where the code throws.
unfoldable pub parse_expiry : Option String → Option ℕ
unfolding parse_from
parse_expiry none = none
parse_expiry (some String.[]) = none
parse_expiry (some (String.◌∷◌ c s)) =
    if leb b'1' (code c) && leb (code c) b'9' then parse_from (code c - 48) s else none
