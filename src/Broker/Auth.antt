-- ===== src/Broker/Auth.antt =====
-- src/broker/auth.rs: the check of a client's credentials against the configured users.
pub mod Comparison
pub mod Login
pub mod Examples
use lumen_mq.Prelude.{
  ℕ, zero, suc, ◌+◌, ◌*◌, ◌/◌, ◌%◌, Bool, true, false, not, ◌&&◌, ◌||◌, Option, some, none, List,
  [], ◌∷◌, Str, Bytes, if◌then◌else◌, ltb, eqb, bit, is_empty, length, nat_key, list_key, ◌==◌,
}
use lumen_mq.Prelude.Result.{Result, ok, err}
use lumen_mq.Utils.{AuthError}

pub data AuthMode : Type 0 where
  anonymous : AuthMode
  username_password : AuthMode
  token : AuthMode

pub record UserConfig : Type 0 where
  pub username : Str
  pub password : Str
  pub publish_acl : List Str
  pub subscribe_acl : List Str

pub record AuthConfig : Type 0 where
  pub mode : AuthMode
  pub allow_anonymous : Bool
  pub users : List UserConfig

pub record AuthIdentity : Type 0 where
  pub username : Option Str

-- `^` and `|` on the lowest bits.
unfoldable pub bit_xor : ℕ → ℕ → ℕ → ℕ
bit_xor zero a b = 0
bit_xor (suc bits) a b = bit (not (eqb (a % 2) (b % 2))) + 2 * bit_xor bits (a / 2) (b / 2)

unfoldable pub bit_or : ℕ → ℕ → ℕ → ℕ
bit_or zero a b = 0
bit_or (suc bits) a b = bit (eqb (a % 2) 1 || eqb (b % 2) 1) + 2 * bit_or bits (a / 2) (b / 2)

-- The loop over the bytes, without an early end.
unfoldable pub gather_diff : ℕ → Bytes → Bytes → ℕ
unfolding bit_xor bit_or
gather_diff diff [] bs = diff
gather_diff diff (a ∷ as') [] = diff
gather_diff diff (a ∷ as') (b ∷ bs) = gather_diff (bit_or 8 diff (bit_xor 8 a b)) as' bs

unfoldable pub constant_time_eq : Bytes → Bytes → Bool
unfolding gather_diff
constant_time_eq as' bs =
    if not (eqb (length as') (length bs)) then false else eqb (gather_diff 0 as' bs) 0

unfoldable pub find_user : Str → List UserConfig → Option UserConfig
find_user name [] = none
find_user name (u ∷ users) = if u.username == name then some u else find_user name users

-- `unwrap_or(&[])`.
abbrev pub password_or_empty : Option Bytes → Bytes
password_or_empty none = []
password_or_empty (some p) = p

abbrev pub check_user : Option UserConfig → Str → Bytes → Result AuthError AuthIdentity
check_user none name password = err AuthError.bad_credentials
check_user (some user) name password =
    if is_empty user.password
    then err AuthError.bad_credentials
    else if not (constant_time_eq user.password password)
    then err AuthError.bad_credentials
    else ok (record { username = some name })

abbrev pub check_login : AuthConfig → Option Str → Option Bytes → Result AuthError AuthIdentity
check_login cfg none password =
    if cfg.allow_anonymous then ok (record { username = none }) else err AuthError.bad_credentials
check_login cfg (some name) password =
    check_user (find_user name cfg.users) name (password_or_empty password)

abbrev pub check_mode :
    AuthMode → AuthConfig → Option Str → Option Bytes → Result AuthError AuthIdentity
check_mode AuthMode.anonymous cfg username password =
    if not cfg.allow_anonymous
    then err AuthError.anonymous_forbidden
    else ok (record { username = none })
check_mode _ cfg username password = check_login cfg username password

unfoldable pub authenticate :
    AuthConfig → Str → Option Str → Option Bytes → Result AuthError AuthIdentity
unfolding constant_time_eq find_user
authenticate cfg client_id username password =
    if ltb 65535 (length client_id)
    then err AuthError.unauthorized_client_id
    else check_mode cfg.mode cfg username password
