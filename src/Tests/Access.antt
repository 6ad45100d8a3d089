-- ===== src/Tests/Access.antt =====
-- Registration, refresh, logging out, a new password, and closing an account, on a local Redis.
use payment_wallet_system.Prelude.{◌≡◌, refl, some, none, [], ◌∷◌, arith, ◌⊎◌, List, ℕ, String, ◌*◌}
use payment_wallet_system.Access.Closing.{IsClosed, close_account-IsClosed}
use payment_wallet_system.Access.Opening.{CanOpen}
use payment_wallet_system.Access.Refreshing.{IsCurrent, refresh-breach, refresh-replays}
use payment_wallet_system.Access.Registration.{login-register}
use payment_wallet_system.Accounts.Repository.{
  check_phone_taken, close_account_tx, create_user_tx, create_user_with_wallet, find_by_email,
  new_user, revoke_sessions, update_password_and_revoke_sessions, update_profile_tx,
  update_status_or_role, update_user,
}
use payment_wallet_system.Accounts.Service.{
  ChangePasswordDto, change_password, close_account, update_user_status,
}
use payment_wallet_system.Auth.Calls.{Server}
use payment_wallet_system.Auth.Expiry.{is_digit, multiplier, parse_expiry, parse_from}
use payment_wallet_system.Auth.Expiry.Printing.{
  milliseconds, minutes, parse_expiry-print_expiry, print_expiry,
}
use payment_wallet_system.Auth.Outside.{Bytes, JwtPayload, TokenPair, rotation_cache}
use payment_wallet_system.Auth.Sealing.{decrypt, encrypt, to_hex}
use payment_wallet_system.Auth.Sealing.RoundTrip.{decrypt-encrypt}
use payment_wallet_system.Auth.Service.{
  RegisterDto, account_stamp, login, logout_all, normalize_email, open_session, refresh,
  refresh_current, refresh_session, register, registered,
}
use payment_wallet_system.Auth.Sessions.{
  clear_rotation_cache, create_session_tx, deny, get_rotation_cache, new_token,
  persist_refresh_token, revoke_access_token, revoke_all_tokens, revoke_all_tx, rotate_token,
  rotate_tx, store_rotation_cache,
}
use payment_wallet_system.Auth.Tokens.{
  Config, Draw, generate_access_token, generate_token_pair, get_access_token_ttl_seconds,
  get_refresh_expiry, hash_token, resolve_hash_secret, units,
}
use payment_wallet_system.Db.Query.{find_first, insert_by, order_by, where_rows}
use payment_wallet_system.Db.Schema.{RefreshToken, Time, User, Uuid, frozen, plain_user}
use payment_wallet_system.Db.Table.{find_unique, replace}
use payment_wallet_system.Db.Tx.{err, invalid_token, ok, security_breach, unauthorized}
use payment_wallet_system.Prelude.Texts.{is_blank, is_space, trim, trim_end, trim_start}
use payment_wallet_system.Session.{
  create_session_atomic, live_count, revoke_all_user_tokens, revoke_where, rotate_refresh_token,
}
use payment_wallet_system.Tests.Data.{empty_wallet, genesis, genesis-IsSound}
use payment_wallet_system.Tests.Outside.{
  Entries, entry, local, marked, read, unary, unmark, without, write,
}

abbrev config : Config
config = record {
  hash_secret = some "0123456789abcdef0123456789abcdef";
  access_secret = "access";
  access_expiry = some "5m";
  refresh_expiry = some "7d";
  max_sessions = 2;
  cache_key = [];
  dummy_hash = "dummy";
}

abbrev nonce : Bytes
nonce = 1 ∷ 2 ∷ 3 ∷ 4 ∷ 5 ∷ 6 ∷ 7 ∷ 8 ∷ 9 ∷ 10 ∷ 11 ∷ 12 ∷ []

abbrev draw : Time → String → ℕ → Draw
draw now raw n = record {
  now = now;
  raw_token = raw;
  jti = "j";
  token_id = n;
  user_id = 3;
  wallet_id = 13;
  salt = "";
  iv = nonce;
}

abbrev start : Server Entries
start = record { db = genesis; redis = [] }

abbrev someone : RegisterDto
someone = record { name = "n"; email = "a@b.c"; phone = " 1 "; password = "p" }

abbrev joined : Server Entries
joined = (register local config (draw 10 "1" 1) someone start).1

abbrev first_pair : TokenPair
first_pair = record { access_token = "j"; refresh_token = "1" }

abbrev second_pair : TokenPair
second_pair = record { access_token = "j"; refresh_token = "2" }

joined_lem : register local config (draw 10 "1" 1) someone start ≡ (ok first_pair, joined)
unfolding parse_from parse_expiry is_digit multiplier units resolve_hash_secret hash_token
    get_refresh_expiry get_access_token_ttl_seconds generate_access_token generate_token_pair
    find_unique replace find_first where_rows order_by insert_by live_count create_session_atomic
    create_session_tx persist_refresh_token open_session create_user_tx create_user_with_wallet
    find_by_email check_phone_taken trim trim_start trim_end is_blank is_space normalize_email
    register login write read unary marked unmark entry without rotate_refresh_token rotate_tx
    store_rotation_cache rotate_token refresh_current refresh_session refresh get_rotation_cache
    clear_rotation_cache encrypt to_hex revoke_all_user_tokens revoke_where revoke_all_tx
    revoke_all_tokens revoke_access_token deny logout_all update_user update_profile_tx
    update_password_and_revoke_sessions change_password close_account_tx close_account
    revoke_sessions update_status_or_role update_user_status
joined_lem = refl

can_open : CanOpen local config (draw 20 "2" 2) joined.db.refresh_tokens
unfolding parse_from parse_expiry is_digit multiplier units resolve_hash_secret hash_token
    get_refresh_expiry get_access_token_ttl_seconds generate_access_token generate_token_pair
    find_unique replace find_first where_rows order_by insert_by live_count create_session_atomic
    create_session_tx persist_refresh_token open_session create_user_tx create_user_with_wallet
    find_by_email check_phone_taken trim trim_start trim_end is_blank is_space normalize_email
    register login write read unary marked unmark entry without rotate_refresh_token rotate_tx
    store_rotation_cache rotate_token refresh_current refresh_session refresh get_rotation_cache
    clear_rotation_cache encrypt to_hex revoke_all_user_tokens revoke_where revoke_all_tx
    revoke_all_tokens revoke_access_token deny logout_all update_user update_profile_tx
    update_password_and_revoke_sessions change_password close_account_tx close_account
    revoke_sessions update_status_or_role update_user_status
can_open = record {
  hash = 51;
  expires_at = 604800020;
  hashes = refl;
  expires = refl;
  new_hash = refl;
  new_id = refl;
}

-- The address is brought to the one that was registered by taking off the white space.
login-register_example :
    (ts : List RefreshToken) × (login local config
        (draw 20 "2" 2)
        (record { email = " a@b.c "; password = "p" })
        joined
      ≡ (
        ok (generate_token_pair local config (draw 20 "2" 2) 3 "a@b.c" plain_user),
        record joined { db = record joined.db { refresh_tokens = ts } },
      ))
unfolding parse_from parse_expiry is_digit multiplier units resolve_hash_secret hash_token
    get_refresh_expiry get_access_token_ttl_seconds generate_access_token generate_token_pair
    find_unique replace find_first where_rows order_by insert_by live_count create_session_atomic
    create_session_tx persist_refresh_token open_session create_user_tx create_user_with_wallet
    find_by_email check_phone_taken trim trim_start trim_end is_blank is_space normalize_email
    register login write read unary marked unmark entry without rotate_refresh_token rotate_tx
    store_rotation_cache rotate_token refresh_current refresh_session refresh get_rotation_cache
    clear_rotation_cache encrypt to_hex revoke_all_user_tokens revoke_where revoke_all_tx
    revoke_all_tokens revoke_access_token deny logout_all update_user update_profile_tx
    update_password_and_revoke_sessions change_password close_account_tx close_account
    revoke_sessions update_status_or_role update_user_status
login-register_example =
    login-register local config (draw 10 "1" 1) someone (draw 20 "2" 2) " a@b.c " start joined
      first_pair joined_lem refl can_open

is_current : IsCurrent local config "1" 20 joined
unfolding parse_from parse_expiry is_digit multiplier units resolve_hash_secret hash_token
    get_refresh_expiry get_access_token_ttl_seconds generate_access_token generate_token_pair
    find_unique replace find_first where_rows order_by insert_by live_count create_session_atomic
    create_session_tx persist_refresh_token open_session create_user_tx create_user_with_wallet
    find_by_email check_phone_taken trim trim_start trim_end is_blank is_space normalize_email
    register login write read unary marked unmark entry without rotate_refresh_token rotate_tx
    store_rotation_cache rotate_token refresh_current refresh_session refresh get_rotation_cache
    clear_rotation_cache encrypt to_hex revoke_all_user_tokens revoke_where revoke_all_tx
    revoke_all_tokens revoke_access_token deny logout_all update_user update_profile_tx
    update_password_and_revoke_sessions change_password close_account_tx close_account
    revoke_sessions update_status_or_role update_user_status
is_current = record {
  hash = 50;
  session = new_token (draw 10 "1" 1) 3 50 604800010;
  hashes = refl;
  found = refl;
  live = refl;
}

abbrev refreshed : Server Entries
refreshed = (refresh local config (draw 20 "2" 2) "1" joined).1

refreshed_lem : refresh local config (draw 20 "2" 2) "1" joined ≡ (ok second_pair, refreshed)
unfolding parse_from parse_expiry is_digit multiplier units resolve_hash_secret hash_token
    get_refresh_expiry get_access_token_ttl_seconds generate_access_token generate_token_pair
    find_unique replace find_first where_rows order_by insert_by live_count create_session_atomic
    create_session_tx persist_refresh_token open_session create_user_tx create_user_with_wallet
    find_by_email check_phone_taken trim trim_start trim_end is_blank is_space normalize_email
    register login write read unary marked unmark entry without rotate_refresh_token rotate_tx
    store_rotation_cache rotate_token refresh_current refresh_session refresh get_rotation_cache
    clear_rotation_cache encrypt to_hex revoke_all_user_tokens revoke_where revoke_all_tx
    revoke_all_tokens revoke_access_token deny logout_all update_user update_profile_tx
    update_password_and_revoke_sessions change_password close_account_tx close_account
    revoke_sessions update_status_or_role update_user_status
refreshed_lem = refl

refresh-replays_example :
    (refresh local config (draw 500 "3" 3) "1" refreshed ≡ (ok second_pair, refreshed))
    ⊎ ((some (entry (rotation_cache is_current.hash) 500 refreshed.redis) ≡ none)
        × (refresh local config (draw 500 "3" 3) "1" refreshed ≡ (
          err (unauthorized invalid_token),
          record refreshed { redis = without (rotation_cache is_current.hash) refreshed.redis },
        )))
unfolding parse_from parse_expiry is_digit multiplier units resolve_hash_secret hash_token
    get_refresh_expiry get_access_token_ttl_seconds generate_access_token generate_token_pair
    find_unique replace find_first where_rows order_by insert_by live_count create_session_atomic
    create_session_tx persist_refresh_token open_session create_user_tx create_user_with_wallet
    find_by_email check_phone_taken trim trim_start trim_end is_blank is_space normalize_email
    register login write read unary marked unmark entry without rotate_refresh_token rotate_tx
    store_rotation_cache rotate_token refresh_current refresh_session refresh get_rotation_cache
    clear_rotation_cache encrypt to_hex revoke_all_user_tokens revoke_where revoke_all_tx
    revoke_all_tokens revoke_access_token deny logout_all update_user update_profile_tx
    update_password_and_revoke_sessions change_password close_account_tx close_account
    revoke_sessions update_status_or_role update_user_status is_current
refresh-replays_example =
    refresh-replays local config (draw 20 "2" 2) (draw 500 "3" 3) "1" second_pair joined refreshed
      is_current refreshed_lem refl refl (omega arith) (omega arith) (omega arith) (omega arith)

refresh-breach_example :
    (s : Server Entries) × (refresh local config (draw 20000 "3" 3) "1" refreshed
      ≡ (err (unauthorized security_breach), s))
    × (live_count is_current.session.user_id 30000 s.db.refresh_tokens ≡ 0)
    × (s.db ≡ record refreshed.db { refresh_tokens = s.db.refresh_tokens })
unfolding parse_from parse_expiry is_digit multiplier units resolve_hash_secret hash_token
    get_refresh_expiry get_access_token_ttl_seconds generate_access_token generate_token_pair
    find_unique replace find_first where_rows order_by insert_by live_count create_session_atomic
    create_session_tx persist_refresh_token open_session create_user_tx create_user_with_wallet
    find_by_email check_phone_taken trim trim_start trim_end is_blank is_space normalize_email
    register login write read unary marked unmark entry without rotate_refresh_token rotate_tx
    store_rotation_cache rotate_token refresh_current refresh_session refresh get_rotation_cache
    clear_rotation_cache encrypt to_hex revoke_all_user_tokens revoke_where revoke_all_tx
    revoke_all_tokens revoke_access_token deny logout_all update_user update_profile_tx
    update_password_and_revoke_sessions change_password close_account_tx close_account
    revoke_sessions update_status_or_role update_user_status is_current
refresh-breach_example =
    refresh-breach local config (draw 20 "2" 2) (draw 20000 "3" 3) "1" second_pair joined refreshed
      is_current refreshed_lem 30000 (omega arith) (omega arith)

abbrev claims : Uuid → JwtPayload
claims id = record { sub = id; email = "a@b.c"; role = plain_user; jti = "j" }

abbrev left_all : Server Entries
left_all = (logout_all local config (draw 40 "" 4) 3 "j" refreshed).1

abbrev new_password : ChangePasswordDto
new_password = record { current_password = "p"; new_password = "q" }

abbrev changed : Server Entries
changed = (change_password local config (draw 40 "" 4) 3 "j" new_password joined).1

abbrev left_one : Server Entries
left_one = (close_account local config (draw 40 "" 4) start.db 1 "j" start).1

close_account-IsClosed_example : IsClosed local 1 (empty_wallet 12 1) start left_one
unfolding parse_from parse_expiry is_digit multiplier units resolve_hash_secret hash_token
    get_refresh_expiry get_access_token_ttl_seconds generate_access_token generate_token_pair
    find_unique replace find_first where_rows order_by insert_by live_count create_session_atomic
    create_session_tx persist_refresh_token open_session create_user_tx create_user_with_wallet
    find_by_email check_phone_taken trim trim_start trim_end is_blank is_space normalize_email
    register login write read unary marked unmark entry without rotate_refresh_token rotate_tx
    store_rotation_cache rotate_token refresh_current refresh_session refresh get_rotation_cache
    clear_rotation_cache encrypt to_hex revoke_all_user_tokens revoke_where revoke_all_tx
    revoke_all_tokens revoke_access_token deny logout_all update_user update_profile_tx
    update_password_and_revoke_sessions change_password close_account_tx close_account
    revoke_sessions update_status_or_role update_user_status
close_account-IsClosed_example =
    close_account-IsClosed local config (draw 40 "" 4) start.db 1 "j" (empty_wallet 12 1) start
      left_one genesis-IsSound refl refl refl

abbrev frozen_user : User
frozen_user =
    record (new_user (account_stamp (draw 10 "1" 1)) (registered local (draw 10 "1" 1) someone)) {
      status = frozen;
    }

-- An administrator has frozen the new account, whose session is still current.
abbrev iced : Server Entries
iced =
    (update_user_status local (draw 15 "" 5) joined.db 1 3
      (record { status = some frozen; role = none }) joined).1

still_current : IsCurrent local config "1" 20 iced
unfolding parse_from parse_expiry is_digit multiplier units resolve_hash_secret hash_token
    get_refresh_expiry get_access_token_ttl_seconds generate_access_token generate_token_pair
    find_unique replace find_first where_rows order_by insert_by live_count create_session_atomic
    create_session_tx persist_refresh_token open_session create_user_tx create_user_with_wallet
    find_by_email check_phone_taken trim trim_start trim_end is_blank is_space normalize_email
    register login write read unary marked unmark entry without rotate_refresh_token rotate_tx
    store_rotation_cache rotate_token refresh_current refresh_session refresh get_rotation_cache
    clear_rotation_cache encrypt to_hex revoke_all_user_tokens revoke_where revoke_all_tx
    revoke_all_tokens revoke_access_token deny logout_all update_user update_profile_tx
    update_password_and_revoke_sessions change_password close_account_tx close_account
    revoke_sessions update_status_or_role update_user_status
still_current = record {
  hash = 50;
  session = new_token (draw 10 "1" 1) 3 50 604800010;
  hashes = refl;
  found = refl;
  live = refl;
}

parse_expiry-print_expiry_example :
    parse_expiry (some (print_expiry 15 minutes)) ≡ some (15 * milliseconds minutes)
parse_expiry-print_expiry_example = parse_expiry-print_expiry 15 minutes (omega arith)

decrypt-encrypt_example : decrypt local [] (encrypt local [] nonce "secret") ≡ some "secret"
decrypt-encrypt_example = decrypt-encrypt local [] nonce "secret" refl (omega arith)
