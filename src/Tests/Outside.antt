-- ===== src/Tests/Outside.antt =====
-- A concrete Redis, cipher and signature, for the tests of the services that call them. The cipher
-- writes a text as the codes of its characters in unary.
use Prim.Native.Char.{Char, char, code, nul, IsLt, IsScalar}
use Prim.Native.Nat.{compare, Ordering}
use text.Mathlib.Text.{◌==◌ as str_eq}
use text.Mathlib.TextPositions.{eq_refl}
use payment_wallet_system.Prelude.{
  ℕ, zero, suc, ◌+◌, ◌*◌, ◌≡◌, ◌<◌, ◌≤◌, ◌⊎◌, inr, refl, sym, ap, ◌∙◌, String, Option, none, some,
  Bool, true, false, List, [], ◌∷◌, arith, ltb, ◌==◌, ==_refl, if◌then◌else◌,
}
use payment_wallet_system.Prelude.Lists.{length}
use payment_wallet_system.Db.Schema.{Time}
use payment_wallet_system.Auth.Outside.{
  Outside, RedisKey, rotation_cache, denylist, cleanup_lock, Hex, Bytes, AreBytes, TokenPair,
}

-- The clauses of `IsScalar`, so that a number can be tried as a character.
abbrev pub BothLt : Ordering → Ordering → Type 0
BothLt Ordering.lt o = IsLt o
BothLt Ordering.eq _ = ⊥
BothLt Ordering.gt _ = ⊥

abbrev pub Scalar : Ordering → Ordering → Ordering → Type 0
Scalar Ordering.lt _ _ = Unit
Scalar Ordering.eq o p = BothLt o p
Scalar Ordering.gt o p = BothLt o p

abbrev pub pick_both : (b c : Ordering) → Option (BothLt b c)
pick_both Ordering.lt Ordering.lt = some tt
pick_both Ordering.lt Ordering.eq = none
pick_both Ordering.lt Ordering.gt = none
pick_both Ordering.eq c = none
pick_both Ordering.gt c = none

abbrev pub pick : (a b c : Ordering) → Option (Scalar a b c)
pick Ordering.lt b c = some tt
pick Ordering.eq b c = pick_both b c
pick Ordering.gt b c = pick_both b c

pick_both-some : (b c : Ordering) (p : BothLt b c) → pick_both b c ≡ some p
pick_both-some Ordering.lt Ordering.lt p = refl
pick_both-some Ordering.lt Ordering.eq p = elim p [ ]
pick_both-some Ordering.lt Ordering.gt p = elim p [ ]
pick_both-some Ordering.eq c p = elim p [ ]
pick_both-some Ordering.gt c p = elim p [ ]

pick-some : (a b c : Ordering) (p : Scalar a b c) → pick a b c ≡ some p
pick-some Ordering.lt b c p = refl
pick-some Ordering.eq b c p = pick_both-some b c p
pick-some Ordering.gt b c p = pick_both-some b c p

abbrev pub char_or : (n : ℕ) → Option (IsScalar n) → Char
char_or n none = nul
char_or n (some p) = char n p

abbrev pub to_char : ℕ → Char
to_char n = char_or n (pick (compare n 55296) (compare 57343 n) (compare n 1114112))

to_char-code : (c : Char) → to_char (code c) ≡ c
to_char-code (char n p) =
    ap (λ o. char_or n o) (pick-some (compare n 55296) (compare 57343 n) (compare n 1114112) p)

unfoldable pub unary : ℕ → Bytes → Bytes
unary zero bs = 0 ∷ bs
unary (suc n) bs = 1 ∷ unary n bs

unfoldable pub write : String → Bytes
unfolding unary
write String.[] = []
write (String.◌∷◌ c s) = unary (code c) (write s)

unfoldable pub read : ℕ → Bytes → String
read n [] = String.[]
read n (zero ∷ bs) = String.◌∷◌ (to_char n) (read 0 bs)
read n (suc b ∷ bs) = read (suc n) bs

read_code :
    (m k : ℕ) (bs : Bytes)
    → m ≡ k
    → String.◌∷◌ (to_char m) (read 0 bs) ≡ String.◌∷◌ (to_char k) (read 0 bs)
read_code m k bs e = ap (λ i. String.◌∷◌ (to_char i) (read 0 bs)) e

read-unary : (m n : ℕ) (bs : Bytes) → read m (unary n bs) ≡ String.◌∷◌ (to_char (m + n)) (read 0 bs)
unfolding read unary
read-unary m zero bs = read_code m (m + 0) bs (omega arith)
read-unary m (suc n) bs =
    read-unary (suc m) n bs ∙ read_code (suc m + n) (m + suc n) bs (omega arith)

pub read-write : (s : String) → read 0 (write s) ≡ s
unfolding write read
read-write String.[] = refl
read-write (String.◌∷◌ c s) =
    read-unary 0 (code c) (write s)
    ∙ read_code (0 + code c) (code c) (write s) (omega arith)
    ∙ ap (λ d. String.◌∷◌ d (read 0 (write s))) (to_char-code c)
    ∙ ap (λ t. String.◌∷◌ c t) (read-write s)

unary-AreBytes : (n : ℕ) (bs : Bytes) → AreBytes bs → AreBytes (unary n bs)
unfolding unary
unary-AreBytes zero bs h = (omega arith, h)
unary-AreBytes (suc n) bs h = (omega arith, unary-AreBytes n bs h)

pub write-AreBytes : (s : String) → AreBytes (write s)
unfolding write
write-AreBytes String.[] = tt
write-AreBytes (String.◌∷◌ c s) = unary-AreBytes (code c) (write s) (write-AreBytes s)

-- The access token with a mark before each character, a dot, and the refresh token.
unfoldable pub marked : String → String → String
marked String.[] rest = String.◌∷◌ "." rest
marked (String.◌∷◌ c s) rest = String.◌∷◌ "x" (String.◌∷◌ c (marked s rest))

abbrev pub with_char : Char → Option TokenPair → Option TokenPair
with_char c none = none
with_char c (some t) = some (record t { access_token = String.◌∷◌ c t.access_token })

unfoldable pub unmark : String → Option TokenPair
unmark String.[] = none
unmark (String.◌∷◌ m String.[]) =
    some (record { access_token = String.[]; refresh_token = String.[] })
unmark (String.◌∷◌ m (String.◌∷◌ c s)) =
    let more = unmark s in
    if code m == b'.'
    then some (record { access_token = String.[]; refresh_token = String.◌∷◌ c s })
    else with_char c more

pub unmark-marked :
    (a r : String) → unmark (marked a r) ≡ some (record { access_token = a; refresh_token = r })
unfolding unmark marked
unmark-marked String.[] String.[] = refl
unmark-marked String.[] (String.◌∷◌ c s) = refl
unmark-marked (String.◌∷◌ c s) r = ap (with_char c) (unmark-marked s r)

abbrev pub same_key : RedisKey → RedisKey → Bool
same_key (rotation_cache a) (rotation_cache b) = a == b
same_key (denylist a) (denylist b) = str_eq a b
same_key cleanup_lock cleanup_lock = true
same_key _ _ = false

same_key_refl : (k : RedisKey) → same_key k k ≡ true
same_key_refl (rotation_cache a) = ==_refl a
same_key_refl (denylist a) = eq_refl a
same_key_refl cleanup_lock = refl

abbrev pub Entries : Type 0
Entries = List (RedisKey × Hex × Time)

-- The entry that was set last counts.
unfoldable pub entry : RedisKey → Time → Entries → Option Hex
entry k now [] = none
entry k now ((j, v, until) ∷ r) =
    if same_key j k then (if ltb now until then some v else none) else entry k now r

unfoldable pub without : RedisKey → Entries → Entries
without k [] = []
without k ((j, v, until) ∷ r) = if same_key j k then without k r else (j, v, until) ∷ without k r

abbrev pub put : RedisKey → Hex → ℕ → Time → Entries → Bool × Entries
put k v ttl now r = (true, (k, v, now + ttl * 1000) ∷ r)

abbrev pub put_new : Option Hex → RedisKey → Hex → ℕ → Time → Entries → Option Bool × Entries
put_new none k v ttl now r = (some true, (k, v, now + ttl * 1000) ∷ r)
put_new (some old) k v ttl now r = (some false, r)

pub entry-put :
    (k : RedisKey) (v : Hex) (ttl : ℕ) (now later : Time) (r r' : Entries)
    → put k v ttl now r ≡ (true, r')
    → now ≤ later
    → later < now + ttl * 1000
    → (◌≡◌ {A = Option (Option Hex)} (some (entry k later r')) none)
      ⊎ (some (entry k later r') ≡ some (some v))
unfolding entry
entry-put k v ttl now later r r' e a w =
    let same = same_key_refl k in
    let there : r' ≡ (k, v, now + ttl * 1000) ∷ r = sym (ap (λ p. p.1) e) in
    inr (rw there (ground arith))

abbrev pub sixteen : Bytes
sixteen = 0 ∷ 0 ∷ 0 ∷ 0 ∷ 0 ∷ 0 ∷ 0 ∷ 0 ∷ 0 ∷ 0 ∷ 0 ∷ 0 ∷ 0 ∷ 0 ∷ 0 ∷ 0 ∷ []

pub zeroes : AreBytes sixteen
zeroes = omega arith

-- A password's hash is the password; a signature is the token's own id.
abbrev pub local : Outside
local = record {
  Redis = Entries;
  set = put;
  set_nx = λ k v ttl now r. put_new (entry k now r) k v ttl now r;
  get = λ k now r. some (entry k now r);
  del = λ k r. (true, without k r);
  sign = λ secret expiry now payload. payload.jti;
  hmac = λ secret token. length (write token);
  argon_hash = λ salt p. p;
  argon_verify = λ hash p. str_eq hash p;
  lower = λ s. s;
  stringify = λ t. marked t.access_token t.refresh_token;
  json_parse = unmark;
  gcm_seal = λ key iv p. (write p, sixteen);
  gcm_open = λ key iv c tag. some (read 0 c);
  set-get = entry-put;
  verify-hash = λ salt p. eq_refl p;
  parse-stringify = λ t. unmark-marked t.access_token t.refresh_token;
  open-seal = λ key iv p. ap some (read-write p);
  length-tag = λ key iv p. refl;
  seal-AreBytes = λ key iv p. (write-AreBytes p, zeroes);
}
