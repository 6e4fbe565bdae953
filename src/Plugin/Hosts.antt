-- ===== src/Plugin/Hosts.antt =====
-- src/plugin/forwarder.rs: where the host that is checked stands in the address.
use lumen_mq.Prelude.{
  ℕ, ◌≡◌, ◌≢◌, ◌⊎◌, ◌∙◌, inl, inr, refl, ap, Bool, true, false, ◌||◌, some, [], ◌∷◌, ◌++◌, Str, eqb,
  eqb_iff, is_empty, All, arith, Bool-cases, Option-cases,
}
use lumen_mq.Plugin.Forwarder.{
  strip_prefix, after_scheme, until, ends_authority, after_last_at, until_bracket, host_of,
  extract_host,
}

-- "http://" and "https://".
abbrev plain_scheme : Str
plain_scheme = b'h' ∷ b't' ∷ b't' ∷ b'p' ∷ b':' ∷ b'/' ∷ b'/' ∷ []

abbrev secure_scheme : Str
secure_scheme = b'h' ∷ b't' ∷ b't' ∷ b'p' ∷ b's' ∷ b':' ∷ b'/' ∷ b'/' ∷ []

abbrev pub is_delimiter : ℕ → Bool
is_delimiter c = eqb c b'/' || (eqb c b'?' || eqb c b'#')

-- The text has no character of which the test holds.
abbrev pub Lacks : (ℕ → Bool) → Str → Type 0
Lacks test s = All (λ c. test c ≡ false) s

-- The text is empty, or begins with a character of which the test holds.
abbrev pub StartsBy : (ℕ → Bool) → Str → Type 0
StartsBy test s = (s ≡ []) ⊎ ((c : ℕ) × (cs : Str) × (s ≡ c ∷ cs) × (test c ≡ true))

-- A host with its port: `[host]` and anything, or a host that is not empty and has no `:`, and then
-- nothing or `:` and anything.
abbrev pub HostAndPort : Str → Str → Type 0
HostAndPort s host =
    ((rest : Str) × (s ≡ b'[' ∷ (host ++ (b']' ∷ rest))) × Lacks (λ c. eqb c b']') host)
    ⊎ ((port : Str) × (s ≡ host ++ port)
        × (host ≢ [])
        × ((cs : Str) → s ≢ b'[' ∷ cs)
        × Lacks (λ c. eqb b':' c) host
        × StartsBy (λ c. eqb b':' c) port)

-- The host of an authority: what follows the user information, which ends with the last `@`.
abbrev HostOf : Str → Str → Type 0
HostOf authority host =
    (user s : Str) × (authority ≡ user ++ s)
    × ((user ≡ []) ⊎ ((u : Str) × (user ≡ u ++ (b'@' ∷ []))))
    × Lacks (λ c. eqb c b'@') s
    × HostAndPort s host

-- The host of an address "http://authority" or "https://authority", where the authority ends at the
-- first `/`, `?` or `#`.
abbrev pub UrlHost : Str → Str → Type 0
UrlHost url host =
    (scheme authority rest : Str) × (url ≡ scheme ++ (authority ++ rest))
    × ((scheme ≡ plain_scheme) ⊎ (scheme ≡ secure_scheme))
    × Lacks is_delimiter authority
    × StartsBy is_delimiter rest
    × HostOf authority host

strip_prefix-some : (p s rest : Str) → strip_prefix p s ≡ some rest → s ≡ p ++ rest
unfolding strip_prefix
strip_prefix-some [] s rest h = ground (arith, h)
strip_prefix-some (p ∷ ps) [] rest h = cc
strip_prefix-some (p ∷ ps) (c ∷ cs) rest h = elim (Bool-cases (eqb p c)) [
  | inl e ↦ ground (arith, e, h, strip_prefix-some ps cs rest, eqb_iff p c)
  | inr e ↦ absurd (ground (arith, e, h))
]

until-split :
    (test : ℕ → Bool) (s : Str)
    → Lacks test (until test s) × (rest : Str) × (s ≡ until test s ++ rest) × StartsBy test rest
unfolding until
until-split test [] = (tt, [], refl, inl refl)
until-split test (c ∷ cs) = elim (Bool-cases (test c)) [
  | inl e ↦ rw (e, until) (tt, c ∷ cs, refl, inr (c, cs, refl, e))
  | inr e ↦
      let (lacks, rest, same, starts) = until-split test cs in
      rw (e, until) ((e, lacks), rest, ap (λ x. c ∷ x) same, starts)
]

-- The text behind the last `@`, where there is one.
last_at :
    (seen s : Str)
    → let r = after_last_at seen s in
      (Lacks (λ c. eqb c b'@') s × (r ≡ seen))
      ⊎ ((u : Str) × (s ≡ (u ++ (b'@' ∷ [])) ++ r) × Lacks (λ c. eqb c b'@') r)
unfolding after_last_at
last_at seen [] = inl (tt, refl)
last_at seen (c ∷ cs) = elim (Bool-cases (eqb c b'@')) [
  | inl e ↦
      rw (e, after_last_at)
        (elim (last_at cs cs) [
          | inl (lacks, same) ↦
              inr ([], rw same (ap (λ x. x ∷ cs) ((eqb_iff c b'@').0 e)), rw same lacks)
          | inr (u, same, lacks) ↦ inr (c ∷ u, ap (λ x. c ∷ x) same, lacks)
        ])
  | inr e ↦
      rw (e, after_last_at)
        (elim (last_at seen cs) [
          | inl (lacks, same) ↦ inl ((refl, lacks), same)
          | inr (u, same, lacks) ↦ inr (c ∷ u, ap (λ x. c ∷ x) same, lacks)
        ])
]

until_bracket-some :
    (s host : Str)
    → until_bracket s ≡ some host
    → (rest : Str) × (s ≡ host ++ (b']' ∷ rest)) × Lacks (λ c. eqb c b']') host
unfolding until_bracket
until_bracket-some [] host h = cc
until_bracket-some (c ∷ cs) host h = elim (Bool-cases (eqb c b']')) [
  | inl e ↦
      let nothing : [] ≡ host = ground (arith, e, h) in
      rw (← nothing) (cs, ap (λ x. x ∷ cs) ((eqb_iff c b']').0 e), tt)
  | inr e ↦ elim (Option-cases (until_bracket cs)) [
    | inl n ↦ absurd (ground (arith, e, n, h))
    | inr (a, n) ↦
        let (rest, same, lacks) = until_bracket-some cs a n in
        let whole : c ∷ a ≡ host = ground (arith, e, n, h) in
        rw (← whole) (rest, ap (λ x. c ∷ x) same, (e, lacks))
  ]
]

host_of-some : (s host : Str) → host_of s ≡ some host → HostAndPort s host
unfolding host_of
host_of-some [] host h = cc
host_of-some (c ∷ cs) host h = elim (Bool-cases (eqb c b'[')) [
  | inl e ↦
      let inside : until_bracket cs ≡ some host = ground (arith, e, h) in
      let (rest, same, lacks) = until_bracket-some cs host inside in
      inl (rest, rw (same, (eqb_iff c b'[').0 e) refl, lacks)
  | inr e ↦ elim (Bool-cases (is_empty (until (eqb b':') (c ∷ cs)))) [
    | inl z ↦ absurd (ground (arith, e, z, h))
    | inr z ↦
        let found : until (eqb b':') (c ∷ cs) ≡ host = ground (arith, e, z, h) in
        let (lacks, port, same, starts) = until-split (eqb b':') (c ∷ cs) in
        inr (
          rw (← found) (
            port,
            same,
            (λ n. ground (arith, n, z)),
            (λ ds k. ground (arith, k, e)),
            lacks,
            starts,
          ))
  ]
]

host_of-HostOf :
    (authority host : Str)
    → host_of (after_last_at authority authority) ≡ some host
    → HostOf authority host
host_of-HostOf authority host h =
    let r = after_last_at authority authority in
    elim (last_at authority authority) [
      | inl (lacks, same) ↦
          ([], authority, refl, inl refl, lacks, host_of-some authority host (rw (← same) h))
      | inr (u, same, lacks) ↦
          (u ++ (b'@' ∷ []), r, same, inr (u, refl), lacks, host_of-some r host h)
    ]

after_scheme-some :
    (url rest : Str)
    → after_scheme url ≡ some rest
    → (scheme : Str) × (url ≡ scheme ++ rest) × ((scheme ≡ plain_scheme) ⊎ (scheme ≡ secure_scheme))
unfolding after_scheme
after_scheme-some url rest h = elim (Option-cases (strip_prefix plain_scheme url)) [
  | inl n ↦
      (secure_scheme, strip_prefix-some secure_scheme url rest (ground (arith, n, h)), inr refl)
  | inr (r, n) ↦
      (plain_scheme, strip_prefix-some plain_scheme url rest (ground (arith, n, h)), inl refl)
]

pub extract_host-UrlHost : (url host : Str) → extract_host url ≡ some host → UrlHost url host
unfolding extract_host
extract_host-UrlHost url host h = elim (Option-cases (after_scheme url)) [
  | inl n ↦ absurd (ground (arith, n, h))
  | inr (rest, n) ↦
      let (scheme, same, known) = after_scheme-some url rest n in
      let (lacks, behind, split, starts) = until-split ends_authority rest in
      let authority = until ends_authority rest in
      (
        scheme,
        authority,
        behind,
        same ∙ ap (λ x. scheme ++ x) split,
        known,
        lacks,
        starts,
        host_of-HostOf authority host (ground (arith, n, h)),
      )
]
