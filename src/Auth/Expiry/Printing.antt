-- ===== src/Auth/Expiry/Printing.antt =====
-- The durations that TokenService.parseExpiry of src/modules/auth/token.service.ts reads, as they are
-- written in the configuration.
use Prim.Native.Char.{Char, code}
use Prim.Native.Nat.{◌%◌}
use payment_wallet_system.Prelude.{
  ℕ, suc, ◌+◌, ◌-◌, ◌*◌, ◌/◌, ◌≡◌, ◌≤◌, ◌<◌, refl, ap, ◌∙◌, String, some, Bool, true, false, ◌&&◌,
  leb, ◌==◌, if◌then◌else◌, arith, Bool-cases, inl, inr,
}
use payment_wallet_system.Auth.Expiry.{is_digit, multiplier, parse_from, parse_expiry}

-- A duration as it is written in the configuration: a number and a unit.
pub data Period : Type 0 where
  seconds minutes hours days : Period

unfoldable pub milliseconds : Period → ℕ
milliseconds seconds = 1000
milliseconds minutes = 60000
milliseconds hours = 3600000
milliseconds days = 86400000

unfoldable pub letter : Period → String
letter seconds = "s"
letter minutes = "m"
letter hours = "h"
letter days = "d"

digit : ℕ → Char
digit ℕ.zero = "0"
digit (suc ℕ.zero) = "1"
digit (suc (suc ℕ.zero)) = "2"
digit (suc (suc (suc ℕ.zero))) = "3"
digit (suc (suc (suc (suc ℕ.zero)))) = "4"
digit (suc (suc (suc (suc (suc ℕ.zero))))) = "5"
digit (suc (suc (suc (suc (suc (suc ℕ.zero)))))) = "6"
digit (suc (suc (suc (suc (suc (suc (suc ℕ.zero))))))) = "7"
digit (suc (suc (suc (suc (suc (suc (suc (suc ℕ.zero)))))))) = "8"
digit _ = "9"

code-digit : (n : ℕ) → n < 10 → code (digit n) ≡ 48 + n
unfolding digit
code-digit ℕ.zero h = refl
code-digit (suc ℕ.zero) h = refl
code-digit (suc (suc ℕ.zero)) h = refl
code-digit (suc (suc (suc ℕ.zero))) h = refl
code-digit (suc (suc (suc (suc ℕ.zero)))) h = refl
code-digit (suc (suc (suc (suc (suc ℕ.zero))))) h = refl
code-digit (suc (suc (suc (suc (suc (suc ℕ.zero)))))) h = refl
code-digit (suc (suc (suc (suc (suc (suc (suc ℕ.zero))))))) h = refl
code-digit (suc (suc (suc (suc (suc (suc (suc (suc ℕ.zero)))))))) h = refl
code-digit (suc (suc (suc (suc (suc (suc (suc (suc (suc ℕ.zero))))))))) h = refl
code-digit (suc (suc (suc (suc (suc (suc (suc (suc (suc (suc n)))))))))) h = absurd (omega arith)

-- The decimal digits of a number before the rest; the number is enough fuel.
decimal : ℕ → ℕ → String → String
decimal ℕ.zero n rest = rest
decimal (suc fuel) n rest =
    let more = decimal fuel (n / 10) (String.◌∷◌ (digit (n % 10)) rest) in
    if n == 0 then rest else more

unfoldable pub print_expiry : ℕ → Period → String
unfolding decimal digit letter
print_expiry n p = decimal n n (letter p)

-- The text goes on with something else than a zero, and with a digit.
starts_number : String → Bool
starts_number String.[] = false
starts_number (String.◌∷◌ c s) = leb b'1' (code c) && leb (code c) b'9'

-- The next digit is read onto those before it.
parse_from-digit :
    (n : ℕ) (rest : String)
    → parse_from (n / 10) (String.◌∷◌ (digit (n % 10)) rest) ≡ parse_from n rest
unfolding parse_from is_digit
parse_from-digit n rest =
    let c = code-digit (n % 10) (omega arith) in
    let next : n / 10 * 10 + (code (digit (n % 10)) - 48) ≡ n = omega (arith, c) in
    let is : is_digit (code (digit (n % 10))) ≡ true = ground (arith, c) in
    rw is (ap (λ m. parse_from m rest) next)

parse_from-decimal :
    (fuel n : ℕ) (rest : String) → n ≤ fuel → parse_from 0 (decimal fuel n rest) ≡ parse_from n rest
unfolding decimal
parse_from-decimal ℕ.zero n rest h = ap (λ m. parse_from m rest) (omega arith)
parse_from-decimal (suc fuel) n rest h = elim (Bool-cases (n == 0)) [
  | inl is_zero ↦ rw is_zero (ap (λ m. parse_from m rest) (ground arith))
  | inr positive ↦ rw positive (
      parse_from-decimal fuel (n / 10) (String.◌∷◌ (digit (n % 10)) rest) (ground arith)
      ∙ parse_from-digit n rest)
]

decimal_zero : (fuel n : ℕ) (rest : String) → n ≡ 0 → decimal fuel n rest ≡ rest
unfolding decimal
decimal_zero ℕ.zero n rest e = refl
decimal_zero (suc fuel) n rest e = ground arith

decimal-starts :
    (fuel n : ℕ) (rest : String) → 1 ≤ n → n ≤ fuel → starts_number (decimal fuel n rest) ≡ true
unfolding decimal starts_number
decimal-starts ℕ.zero n rest p h = absurd (omega arith)
decimal-starts (suc fuel) n rest p h = elim (Bool-cases (n / 10 == 0)) [
  | inl short ↦
      let c = code-digit (n % 10) (omega arith) in
      rw (decimal_zero fuel (n / 10) _ (ground arith)) (ground (arith, c))
  | inr long ↦
      let more =
        decimal-starts fuel (n / 10) (String.◌∷◌ (digit (n % 10)) rest) (ground arith)
          (ground arith) in
      ground arith
]

parse_expiry-starts : (s : String) → starts_number s ≡ true → parse_expiry (some s) ≡ parse_from 0 s
unfolding parse_expiry parse_from starts_number is_digit
parse_expiry-starts String.[] h = ground arith
parse_expiry-starts (String.◌∷◌ c s) h = ground arith

-- A positive number of seconds, minutes, hours or days, written in decimal digits with the letter of
-- the unit behind them, is read as that many milliseconds.
pub parse_expiry-print_expiry :
    (n : ℕ) (p : Period)
    → 1 ≤ n
    → parse_expiry (some (print_expiry n p)) ≡ some (n * milliseconds p)
unfolding print_expiry parse_from is_digit multiplier letter milliseconds
parse_expiry-print_expiry n p h =
    parse_expiry-starts _ (decimal-starts n n (letter p) h (omega arith))
    ∙ parse_from-decimal n n (letter p) (omega arith)
    ∙ ends p
  where
    ends : (q : Period) → parse_from n (letter q) ≡ some (n * milliseconds q)
    ends seconds = refl
    ends minutes = refl
    ends hours = refl
    ends days = refl
