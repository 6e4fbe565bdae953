-- ===== src/Broker/Auth/Examples.antt =====
-- Credentials, run: the tests and the witnesses.
use lumen_mq.Prelude.{
  In, inl, inr, ◌≡◌, refl, [], ◌∷◌, Str, Bytes, false, some, arith, is_empty, list_same,
}
use lumen_mq.Prelude.Result.{ok}
use lumen_mq.Broker.Auth.{
  AuthMode, AuthConfig, UserConfig, authenticate, find_user, constant_time_eq, gather_diff, bit_or,
  bit_xor,
}
use lumen_mq.Broker.Auth.Login.{Configured, authenticate_sound}

abbrev name : Str
name = b'u' ∷ []

abbrev password : Bytes
password = b'p' ∷ b'w' ∷ []

abbrev user : UserConfig
user = record { username = name; password = password; publish_acl = []; subscribe_acl = [] }

abbrev config : AuthConfig
config = record { mode = AuthMode.username_password; allow_anonymous = false; users = user ∷ [] }

accepted : authenticate config [] (some name) (some password) ≡ ok (record { username = some name })
unfolding authenticate find_user constant_time_eq gather_diff bit_or bit_xor list_same
accepted = refl

config-Configured : Configured config
config-Configured u (inl h) = rw h (omega arith, (omega arith, tt))
config-Configured u (inr h) = absurd h

authenticate_sound_example :
    (u : UserConfig) × In u config.users
    × (u.username ≡ name)
    × (u.password ≡ password)
    × (is_empty password ≡ false)
    × (some name ≡ some name)
authenticate_sound_example =
    authenticate_sound config [] name password (record { username = some name }) config-Configured
      (omega arith, (omega arith, tt)) (λ e. cc) accepted
