-- ===== src/Auth/Sealing/RoundTrip.antt =====
-- src/modules/crypto/crypto.service.ts: what `encrypt` writes is read again by `decrypt`.
use Prim.Native.Nat.{◌%◌}
use payment_wallet_system.Prelude.{
  ℕ, suc, ◌+◌, ◌/◌, ◌≡◌, ◌<◌, refl, sym, ap, ◌∙◌, String, Option, some, [], ◌∷◌, ◌++◌, arith,
}
use payment_wallet_system.Prelude.Lists.{length, take, drop}
use payment_wallet_system.Auth.Outside.{Bytes, AreBytes, Outside}
use payment_wallet_system.Auth.Sealing.{
  hex_digit, digit_value, to_hex, from_hex, tag_offset, encrypt, decrypt,
}

digit_value-hex_digit : (n : ℕ) → n < 16 → digit_value (hex_digit n) ≡ some n
digit_value-hex_digit n h = ground arith

from_hex-to_hex : (bs : Bytes) → AreBytes bs → from_hex (to_hex bs) ≡ bs
unfolding from_hex to_hex
from_hex-to_hex [] h = refl
from_hex-to_hex (b ∷ bs) h =
    rw
      (
        digit_value-hex_digit (b / 16) (omega (arith, h.0)),
        digit_value-hex_digit (b % 16) (omega arith),
        from_hex-to_hex bs h.1,
      )
      (ap (λ c. c ∷ bs) (omega arith))

length-append : (xs ys : Bytes) → length (xs ++ ys) ≡ length xs + length ys
length-append [] ys = omega arith
length-append (x ∷ xs) ys = omega (arith, length-append xs ys)

take-append : (xs ys : Bytes) (n : ℕ) → length xs ≡ n → take n (xs ++ ys) ≡ xs
take-append [] ys ℕ.zero e = refl
take-append [] ys (suc n) e = absurd (omega arith)
take-append (x ∷ xs) ys ℕ.zero e = absurd (omega arith)
take-append (x ∷ xs) ys (suc n) e = ap (λ zs. x ∷ zs) (take-append xs ys n (omega arith))

drop-append : (xs ys : Bytes) (n : ℕ) → length xs ≡ n → drop n (xs ++ ys) ≡ ys
drop-append [] ys ℕ.zero e = refl
drop-append [] ys (suc n) e = absurd (omega arith)
drop-append (x ∷ xs) ys ℕ.zero e = absurd (omega arith)
drop-append (x ∷ xs) ys (suc n) e = drop-append xs ys n (omega arith)

Every-append : (xs ys : Bytes) → AreBytes xs → AreBytes ys → AreBytes (xs ++ ys)
Every-append [] ys h k = k
Every-append (x ∷ xs) ys h k = (h.0, Every-append xs ys h.1 k)

append_assoc_bytes : (xs ys zs : Bytes) → xs ++ (ys ++ zs) ≡ (xs ++ ys) ++ zs
append_assoc_bytes [] ys zs = refl
append_assoc_bytes (x ∷ xs) ys zs = ap (λ us. x ∷ us) (append_assoc_bytes xs ys zs)

-- The three parts of what is stored.
cut_iv : (iv ct tag : Bytes) → length iv ≡ 12 → take 12 (iv ++ (ct ++ tag)) ≡ iv
cut_iv iv ct tag l = take-append iv (ct ++ tag) 12 l

module _ (iv ct tag : Bytes) (t : length tag ≡ 16) where
  front : tag_offset (length (iv ++ (ct ++ tag))) ≡ length (iv ++ ct)
  unfolding tag_offset
  front = ground (arith, length-append iv (ct ++ tag), length-append ct tag, length-append iv ct)

  cut_tag : drop (tag_offset (length (iv ++ (ct ++ tag)))) (iv ++ (ct ++ tag)) ≡ tag
  cut_tag =
      ap (λ xs. drop (tag_offset (length (iv ++ (ct ++ tag)))) xs) (append_assoc_bytes iv ct tag)
      ∙ drop-append (iv ++ ct) tag _ (sym front)

  cut_ciphertext :
      length iv ≡ 12
      → drop 12 (take (tag_offset (length (iv ++ (ct ++ tag)))) (iv ++ (ct ++ tag))) ≡ ct
  cut_ciphertext l =
      ap (λ xs. drop 12 (take (tag_offset (length (iv ++ (ct ++ tag)))) xs))
        (append_assoc_bytes iv ct tag)
      ∙ ap (λ xs. drop 12 xs) (take-append (iv ++ ct) tag _ (sym front))
      ∙ drop-append iv ct 12 l

-- A text that is encrypted under a key, with a nonce of twelve bytes, is decrypted under that key.
pub decrypt-encrypt :
    (o : Outside) (key iv : Bytes) (plaintext : String)
    → length iv ≡ 12
    → AreBytes iv
    → decrypt o key (encrypt o key iv plaintext) ≡ some plaintext
unfolding decrypt encrypt
decrypt-encrypt o key iv plaintext l b =
    let sealed = o.gcm_seal key iv plaintext in
    let bytes = o.seal-AreBytes key iv plaintext in
    let tagged = o.length-tag key iv plaintext in
    let whole =
      from_hex-to_hex (iv ++ (sealed.0 ++ sealed.1))
        (Every-append iv _ b (Every-append sealed.0 _ bytes.0 bytes.1)) in
    let opens : Bytes → Option String = λ buf.
      o.gcm_open key (take 12 buf) (drop 12 (take (tag_offset (length buf)) buf))
        (drop (tag_offset (length buf)) buf) in
    let opened : opens (iv ++ (sealed.0 ++ sealed.1)) ≡ some plaintext =
      rw
        (
          cut_iv iv sealed.0 sealed.1 l,
          cut_tag iv sealed.0 sealed.1 tagged,
          cut_ciphertext iv sealed.0 sealed.1 tagged l,
        )
        (o.open-seal key iv plaintext) in
    ap opens whole ∙ opened
