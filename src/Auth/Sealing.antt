-- ===== src/Auth/Sealing.antt =====
-- src/modules/crypto/crypto.service.ts: AES-256-GCM, whose primitives are those of node:crypto.
pub mod RoundTrip
use Prim.Native.Nat.{◌%◌}
use payment_wallet_system.Prelude.{
  ℕ, ◌+◌, ◌-◌, ◌*◌, ◌/◌, String, Option, none, some, Bool, true, ◌&&◌, ◌||◌, List, [], ◌∷◌, ◌++◌,
  leb, ltb, ◌==◌, if◌then◌else◌,
}
use payment_wallet_system.Prelude.Lists.{length, take, drop}
use payment_wallet_system.Auth.Outside.{Hex, Bytes, Outside}

-- The code of a hexadecimal digit below sixteen.
abbrev pub hex_digit : ℕ → ℕ
hex_digit n = if ltb n 10 then 48 + n else 87 + n

-- `toString('hex')`
unfoldable pub to_hex : Bytes → Hex
to_hex [] = []
to_hex (b ∷ bs) = hex_digit (b / 16) ∷ hex_digit (b % 16) ∷ to_hex bs

abbrev pub digit_value : ℕ → Option ℕ
digit_value c =
    if leb 48 c && leb c 57
    then some (c - 48)
    else if leb 97 c && leb c 102
    then some (c - 87)
    else if leb 65 c && leb c 70
    then some (c - 55)
    else none

abbrev pub byte_of : Option ℕ → Option ℕ → Bytes → Bytes
byte_of (some hi) (some lo) bs = (hi * 16 + lo) ∷ bs
byte_of none lo bs = []
byte_of (some hi) none bs = []

-- `Buffer.from(hex, 'hex')`, which ends at the first pair that is no byte.
unfoldable pub from_hex : Hex → Bytes
from_hex [] = []
from_hex (c ∷ []) = []
from_hex (c ∷ d ∷ cs) = byte_of (digit_value c) (digit_value d) (from_hex cs)

abbrev pub iv_bytes : ℕ
iv_bytes = 12

abbrev pub tag_bytes : ℕ
tag_bytes = 16

abbrev pub key_hex_length : ℕ
key_hex_length = 64

unfoldable pub is_hex : Hex → Bool
is_hex [] = true
is_hex (c ∷ cs) =
    (leb 48 c && leb c 57 || leb 97 c && leb c 102 || leb 65 c && leb c 70) && is_hex cs

-- `resolveKey`, where `none` stands for a throw.
unfoldable pub resolve_key : Option Hex → Option Bytes
unfolding is_hex from_hex
resolve_key none = none
resolve_key (some hex) =
    if length hex == key_hex_length && is_hex hex then some (from_hex hex) else none

-- `length - 16` as an offset of `subarray`, which counts a negative one from the end.
unfoldable pub tag_offset : ℕ → ℕ
tag_offset n = if ltb n tag_bytes then n + n - tag_bytes else n - tag_bytes

module _ (o : Outside) (key : Bytes) where
  -- The nonce is drawn for each call.
  unfoldable pub encrypt : Bytes → String → Hex
  unfolding to_hex
  encrypt iv plaintext =
      let sealed = o.gcm_seal key iv plaintext in to_hex (iv ++ (sealed.0 ++ sealed.1))

  -- `subarray(from, to)` is what is left of the first `to` bytes without the first `from`.
  unfoldable pub decrypt : Hex → Option String
  unfolding from_hex tag_offset
  decrypt hex =
      let buf = from_hex hex in
      let iv = take iv_bytes buf in
      let tag = drop (tag_offset (length buf)) buf in
      let ciphertext = drop iv_bytes (take (tag_offset (length buf)) buf) in
      o.gcm_open key iv ciphertext tag
