-- ===== src/Broker/Auth/Login.antt =====
-- src/broker/auth.rs: a user name is accepted only with the password configured for it.
use lumen_mq.Prelude.{
  In, List, [], ◌∷◌, ◌≡◌, ◌≢◌, ◌==◌, nat_key, list_key, false, some, Str, Bytes, ltb, length,
  is_empty, All, arith, Bool-cases, Option-cases, inl, inr,
}
use lumen_mq.Prelude.Result.{ok}
use lumen_mq.Broker.Session.Count.{str_iff}
use lumen_mq.Broker.Auth.{
  AuthMode, AuthConfig, UserConfig, AuthIdentity, authenticate, find_user, check_user,
}
use lumen_mq.Broker.Auth.Comparison.{IsByte, constant_time_eq_iff}

-- Each configured password is a sequence of bytes.
abbrev pub Configured : AuthConfig → Type 0
Configured cfg = (user : UserConfig) → In user cfg.users → All IsByte user.password

find_user-In :
    (name : Str) (users : List UserConfig) (user : UserConfig)
    → find_user name users ≡ some user
    → In user users × (user.username ≡ name)
unfolding find_user
find_user-In name [] user h = cc
find_user-In name (u ∷ users) user h = elim (Bool-cases (u.username == name)) [
  | inl e ↦ ground (arith, e, h, str_iff u.username name)
  | inr e ↦ ground (arith, e, h, find_user-In name users user)
]

checked :
    (cfg : AuthConfig) (name : Str) (password : Bytes) (i : AuthIdentity)
    → Configured cfg
    → All IsByte password
    → check_user (find_user name cfg.users) name password ≡ ok i
    → (user : UserConfig) × In user cfg.users
      × (user.username ≡ name)
      × (user.password ≡ password)
      × (is_empty password ≡ false)
      × (i.username ≡ some name)
checked cfg name password i c b h = elim (Option-cases (find_user name cfg.users)) [
  | inl n ↦ absurd (ground (arith, n, h))
  | inr (user, n) ↦
      let (there, named) = find_user-In name cfg.users user n in
      let same = constant_time_eq_iff user.password password (c user there) b in
      (
        user,
        there,
        named,
        ground (arith, n, h, same),
        ground (arith, n, h, same),
        ground (arith, n, h),
      )
]

-- In the modes with a login, where a client that gives a user name and a password is accepted, the
-- configured users include one with that name and exactly that password, the password is not empty, and the identity has
-- that name.
pub authenticate_sound :
    (cfg : AuthConfig) (client_id name : Str) (password : Bytes) (i : AuthIdentity)
    → Configured cfg
    → All IsByte password
    → cfg.mode ≢ AuthMode.anonymous
    → authenticate cfg client_id (some name) (some password) ≡ ok i
    → (user : UserConfig) × In user cfg.users
      × (user.username ≡ name)
      × (user.password ≡ password)
      × (is_empty password ≡ false)
      × (i.username ≡ some name)
unfolding authenticate
authenticate_sound cfg client_id name password i c b login h =
    elim (Bool-cases (ltb 65535 (length client_id))) [
      | inl long ↦ absurd (ground (arith, long, h))
      | inr fits ↦ checked cfg name password i c b (ground (arith, fits, h, login))
    ]
