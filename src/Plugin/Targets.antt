-- ===== src/Plugin/Targets.antt =====
-- src/plugin/forwarder.rs: a forwarder's target is none of the forbidden networks.
use lumen_mq.Prelude.{
  ℕ, ◌*◌, ◌/◌, ◌%◌, ◌^◌, ◌<◌, ◌≡◌, ◌↔◌, ◌⊎◌, inl, inr, refl, true, false, ◌||◌, Option, some, none,
  List, [], ◌∷◌, Str, eqb, arith, Bool-cases, Option-cases, ◌+◌, ◌≤◌,
}
use lumen_mq.Prelude.Result.{ok, Result-cases}
use lumen_mq.Security.IpFilter.{IpAddr, v4, v6, Syntax}
use lumen_mq.Security.Rules.{IsAddr, SamePrefix, GivesAddrs}
use lumen_mq.Plugin.Hosts.{UrlHost, extract_host-UrlHost}
use lumen_mq.Plugin.Forwarder.{
  ForwardConfig, Forwarder, first_segment, is_forbidden_v4, is_forbidden_ip, extract_host,
  eq_ignore_case, localhost, allowed_ip, validate_forward_url, new_forwarder,
}

-- 127.0.0.0/8, 0.0.0.0/8, 10.0.0.0/8, 172.16.0.0/12, 192.168.0.0/16, 169.254.0.0/16.
abbrev pub forbidden_v4 : List (ℕ × IpAddr)
forbidden_v4 =
    (8, v4 0x7F000000)
    ∷ (8, v4 0)
    ∷ (8, v4 0x0A000000)
    ∷ (12, v4 0xAC100000)
    ∷ (16, v4 0xC0A80000)
    ∷ (16, v4 0xA9FE0000)
    ∷ []

-- ::/128, ::1/128, fe80::/10, fc00::/7.
abbrev pub forbidden_v6 : List (ℕ × IpAddr)
forbidden_v6 =
    (128, v6 0) ∷ (128, v6 1) ∷ (10, v6 (0xFE80 * 2 ^ 112)) ∷ (7, v6 (0xFC00 * 2 ^ 112)) ∷ []

abbrev pub InNetworks : IpAddr → List (ℕ × IpAddr) → Type 0
InNetworks ip [] = ⊥
InNetworks ip ((prefix, network) ∷ networks) = SamePrefix prefix network ip ⊎ InNetworks ip networks

v4_lem :
    (bits : ℕ) → bits < 2 ^ 32 → (is_forbidden_v4 bits ≡ true) ↔ InNetworks (v4 bits) forbidden_v4
unfolding is_forbidden_v4
v4_lem bits b = ground arith

v6_lem :
    (bits : ℕ)
    → bits < 2 ^ 128
    → ((eqb bits 0
          || (eqb bits 1
              || (eqb (first_segment bits / 64 * 64) 0xFE80
                  || eqb (first_segment bits / 512 * 512) 0xFC00)))
        ≡ true)
      ↔ InNetworks (v6 bits) forbidden_v6
v6_lem bits b = ground arith

-- The address is of a forbidden network, or has an address of version 4 in it that is.
abbrev pub Forbidden : IpAddr → Type 0
Forbidden (v4 bits) = InNetworks (v4 bits) forbidden_v4
Forbidden (v6 bits) =
    InNetworks (v6 bits) forbidden_v6
    ⊎ ((bits / 2 ^ 32 ≡ 0xFFFF) × InNetworks (v4 (bits % 2 ^ 32)) forbidden_v4)

is_forbidden_ip-Forbidden : (ip : IpAddr) → IsAddr ip → (is_forbidden_ip ip ≡ true) ↔ Forbidden ip
unfolding is_forbidden_ip
is_forbidden_ip-Forbidden (v4 bits) h = v4_lem bits h
is_forbidden_ip-Forbidden (v6 bits) h =
    let plain = v6_lem bits h in
    let mapped = v4_lem (bits % 2 ^ 32) (omega arith) in
    (
      (λ e. elim (Bool-cases (is_forbidden_v4 (bits % 2 ^ 32))) [
        | inl f ↦ elim (Bool-cases (eqb (bits / 2 ^ 32) 0xFFFF)) [
          | inl m ↦ inr (ground (arith, m), mapped.0 f)
          | inr m ↦ inl (plain.0 (ground (arith, e, m)))
        ]
        | inr f ↦ inl (plain.0 (ground (arith, e, f)))
      ]),
      λ k. elim k [
        | inl n ↦ ground (arith, plain.1 n)
        | inr (m, n) ↦ ground (arith, m, mapped.1 n)
      ],
    )

-- What the host reads as, if anything, is not forbidden.
abbrev pub NotForbidden : Option IpAddr → Type 0
NotForbidden none = Unit
NotForbidden (some ip) = ¬ Forbidden ip

allowed_ip-NotForbidden :
    (o : Option IpAddr)
    → ((ip : IpAddr) → o ≡ some ip → IsAddr ip)
    → allowed_ip o ≡ ok tt
    → NotForbidden o
allowed_ip-NotForbidden none v h = tt
allowed_ip-NotForbidden (some ip) v h = λ bad.
    let caught = (is_forbidden_ip-Forbidden ip (v ip refl)).1 bad in
    absurd (ground (arith, h, caught))

-- The texts are the same but for the case of their letters.
abbrev pub SameLetters : Str → Str → Type 0
SameLetters [] [] = Unit
SameLetters (a ∷ as') (b ∷ bs) =
    ((a ≡ b)
      ⊎ (((a + 32 ≡ b) × (b'A' ≤ a) × (a ≤ b'Z')) ⊎ ((b + 32 ≡ a) × (b'A' ≤ b) × (b ≤ b'Z'))))
    × SameLetters as' bs
SameLetters _ _ = ⊥

eq_ignore_case-SameLetters : (s t : Str) → SameLetters s t → eq_ignore_case s t ≡ true
unfolding eq_ignore_case
eq_ignore_case-SameLetters [] [] h = refl
eq_ignore_case-SameLetters [] (b ∷ bs) h = absurd h
eq_ignore_case-SameLetters (a ∷ as') [] h = absurd h
eq_ignore_case-SameLetters (a ∷ as') (b ∷ bs) h =
    ground (arith, h.0, eq_ignore_case-SameLetters as' bs h.1)

-- An enabled forwarder that may not go to private networks has an address "http://" or "https://" and
-- an authority that ends at the first `/`, `?` or `#` (a backslash does not end it), with a host in it:
-- after the last `@`, the text in brackets, or a text that is not empty up to the first `:`. The host is
-- not `localhost` in any letter case; where the host reads as an address, the address is none of
-- 127.0.0.0/8, 0.0.0.0/8, 10.0.0.0/8, 172.16.0.0/12, 192.168.0.0/16, 169.254.0.0/16, ::, ::1,
-- fe80::/10, fc00::/7, and holds none of the first six.
pub new_forwarder_target :
    (x : Syntax) (cfg : ForwardConfig) (f : Forwarder)
    → GivesAddrs x
    → cfg.enabled ≡ true
    → cfg.allow_private_network ≡ false
    → new_forwarder x cfg ≡ ok f
    → (host : Str) × UrlHost cfg.url host
      × ¬ SameLetters host localhost
      × NotForbidden (x.parse_ip host)
unfolding new_forwarder validate_forward_url
new_forwarder_target x cfg f v on private h = elim (Option-cases (extract_host cfg.url)) [
  | inl n ↦ absurd (ground (arith, n, on, private, h))
  | inr (host, n) ↦
      let plain : eq_ignore_case host localhost ≡ false = ground (arith, n, on, private, h) in
      let fine : allowed_ip (x.parse_ip host) ≡ ok tt =
        elim (Result-cases (allowed_ip (x.parse_ip host))) [
          | inl (e, k) ↦ absurd (ground (arith, n, on, private, h, plain, k))
          | inr (u, k) ↦ ground (arith, k)
        ] in
      (
        host,
        extract_host-UrlHost cfg.url host n,
        (λ k.
            let same = eq_ignore_case-SameLetters host localhost k in ground (arith, plain, same)),
        allowed_ip-NotForbidden (x.parse_ip host) (v host) fine,
      )
]
