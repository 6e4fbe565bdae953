-- ===== src/Broker/Connection/Admission.antt =====
-- src/broker/mod.rs: who is let in by a CONNECT, and with what answer.
use lumen_mq.Prelude.{
  refl, sym, ◌∙◌, if◌then◌else◌, [], Bool, Option, true, false, some, none, ◌↔◌, ◌∷◌, ◌≢◌, ℕ, ◌≡◌,
  ◌<◌, ◌⊎◌, inl, inr, not, ◌&&◌, Str, is_empty, nat_key, list_key, arith, Bool-cases,
}
use lumen_mq.Prelude.Assoc.{lookup}
use lumen_mq.Prelude.Result.{ok, err, Result-cases}
use lumen_mq.Utils.{AuthError}
use lumen_mq.Codec.Packet.{Packet, Connect, connack_error}
use lumen_mq.Broker.Auth.{AuthConfig, AuthIdentity, authenticate}
use lumen_mq.Broker.Session.{SessionEntry, Registered, was_present, register}
use lumen_mq.Broker.Router.{Router}
use lumen_mq.Broker.Connection.Opening.{
  is_supported, with_id, auth_code, screen, registration, open_session, answer_connect,
}

-- The id that a client goes by: its own, or the one that it is given.
abbrev pub id_of : Str → Connect → Str
id_of auto c = if is_empty c.client_id then auto else c.client_id

-- The client has a persistent session, and does not ask for a clean one.
abbrev pub Resumes : {D : Type 0} → Str → Connect → Router D → Type 0
Resumes id c r =
    (c.clean_session ≡ false)
    × (e : SessionEntry) × (lookup id r.sessions.sessions ≡ some e)
    × (e.clean_session ≡ false)

-- A CONNECT that may be let in: its level is that of MQTT 3.1.1 or of MQTT 5, it has a client id or
-- asks for a clean session, and it authenticates under the id that the client goes by.
abbrev pub Admissible : AuthConfig → Str → Connect → Type 0
Admissible cfg auto c =
    ((c.protocol_level ≡ 4) ⊎ (c.protocol_level ≡ 5))
    × ((c.client_id ≢ []) ⊎ (c.clean_session ≡ true))
    × (i : AuthIdentity) × (authenticate cfg (id_of auto c) c.username c.password ≡ ok i)

with_id_lem : (auto : Str) (c : Connect) → (with_id auto c).client_id ≡ id_of auto c
with_id_lem auto c = elim (Bool-cases (is_empty c.client_id)) [
  | inl b ↦ ground (arith, b)
  | inr b ↦ ground (arith, b)
]

same_login :
    (cfg : AuthConfig) (auto : Str) (c : Connect)
    → let c' = with_id auto c in
      authenticate cfg c'.client_id c'.username c'.password
      ≡ authenticate cfg (id_of auto c) c.username c.password
same_login cfg auto c = elim (Bool-cases (is_empty c.client_id)) [
  | inl b ↦ rw b refl
  | inr b ↦ rw b refl
]

level_lem : (level : ℕ) → (is_supported level ≡ true) ↔ ((level ≡ 4) ⊎ (level ≡ 5))
level_lem level = ground arith

id_lem :
    (id : Str) (clean : Bool) → ((is_empty id && not clean) ≡ false) ↔ ((id ≢ []) ⊎ (clean ≡ true))
id_lem [] true = ((λ h. inr refl), λ k. refl)
id_lem [] false = ((λ h. cc), λ k. elim k [ inl n ↦ absurd (n refl) | inr e ↦ cc ])
id_lem (b ∷ bs) clean = ((λ h. inl (λ e. cc)), λ k. refl)

auth_code_lem : (e : AuthError) → 0 < auth_code e
auth_code_lem AuthError.bad_credentials = omega arith
auth_code_lem AuthError.unauthorized_client_id = omega arith
auth_code_lem AuthError.anonymous_forbidden = omega arith
auth_code_lem AuthError.too_many_connections = omega arith

screen-cases :
    (cfg : AuthConfig) (auto : Str) (c : Connect)
    → ((code : ℕ) × (screen cfg auto c ≡ err code) × (0 < code) × ¬ Admissible cfg auto c)
      ⊎ ((screen cfg auto c ≡ ok (with_id auto c)) × Admissible cfg auto c)
unfolding screen
screen-cases cfg auto c = elim (Bool-cases (is_supported c.protocol_level)) [
  | inr l ↦ inl (
    1,
    ground (arith, l),
    omega arith,
    λ h. let on = (level_lem c.protocol_level).1 h.0 in ground (arith, l, on),
  )
  | inl l ↦ elim (Bool-cases (is_empty c.client_id && not c.clean_session)) [
    | inl n ↦ inl (
      2,
      ground (arith, l, n),
      omega arith,
      λ h. let off = (id_lem c.client_id c.clean_session).1 h.1 in ground (arith, n, off),
    )
    | inr n ↦
        let c' = with_id auto c in
        let login = same_login cfg auto c in
        elim (Result-cases (authenticate cfg c'.client_id c'.username c'.password)) [
          | inl (e, a) ↦ inl (
            auth_code e,
            ground (arith, l, n, a),
            auth_code_lem e,
            λ h. let let_in = login ∙ h.3 in ground (arith, let_in, a),
          )
          | inr (i, a) ↦ inr (
            ground (arith, l, n, a),
            (
              (level_lem c.protocol_level).0 l,
              (id_lem c.client_id c.clean_session).0 n,
              i,
              sym login ∙ a,
            ),
          )
        ]
  ]
]

present_lem :
    (o : Option SessionEntry) (clean : Bool)
    → ((was_present o && not clean) ≡ true)
      ↔ ((clean ≡ false) × (e : SessionEntry) × (o ≡ some e) × (e.clean_session ≡ false))
present_lem none clean = ((λ h. cc), λ (n, e, h, k). cc)
present_lem (some e) true = ((λ h. ground (arith, h)), λ (n, e', h, k). cc)
present_lem (some e) false =
    ((λ h. (refl, e, refl, ground (arith, h))), λ (n, e', h, k). ground (arith, h, k))

-- A CONNECT is let in exactly if its level is that of MQTT 3.1.1 or of MQTT 5, it has a client id or
-- asks for a clean session, and it authenticates. One that is not gets a CONNACK with a code other than
-- 0, and changes nothing. One that is gets a CONNACK with code 0 and its own level, which says that a
-- session is present exactly if the client has a persistent session and did not ask for a clean one,
-- and the client is registered, under the id given to it where it has none.
pub answer_connect-cases :
    {D : Type 0} (cfg : AuthConfig) (auto : Str) (now tx : ℕ) (peer : Str) (c : Connect)
    (r : Router D)
    → let answered = answer_connect cfg auto now tx peer c r in
      ((code : ℕ) × (answered ≡ ((connack_error code, none), r))
        × (0 < code)
        × ¬ Admissible cfg auto c)
      ⊎ ((registered : Registered) × (present : Bool) × (answered.0 ≡ (
        Packet.connack (record {
          session_present = present;
          return_code = 0;
          protocol_level = c.protocol_level;
        }),
        some registered,
      ))
          × ((present ≡ true) ↔ Resumes (id_of auto c) c r)
          × (answered.1 ≡ record r {
            sessions = (register now (registration tx peer (with_id auto c)) r.sessions).1;
          })
          × Admissible cfg auto c)
unfolding answer_connect open_session register
answer_connect-cases cfg auto now tx peer c r = elim (screen-cases cfg auto c) [
  | inl (code, e, p, bad) ↦ inl (code, ground (arith, e), p, bad)
  | inr (e, good) ↦ inr (
    (register now (registration tx peer (with_id auto c)) r.sessions).0,
    was_present (lookup (with_id auto c).client_id r.sessions.sessions) && not c.clean_session,
    ground (arith, e),
    rw (← with_id_lem auto c)
        (present_lem (lookup (with_id auto c).client_id r.sessions.sessions) c.clean_session),
    ground (arith, e),
    good,
  )
]
