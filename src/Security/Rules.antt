-- ===== src/Security/Rules.antt =====
-- src/security/ip_filter.rs: the filter decides whether some configured rule covers an address.
use native.Mathlib.Nat.{div-mul-le_self}
use lumen_mq.Prelude.{
  ℕ, ◌+◌, ◌-◌, ◌/◌, ◌^◌, ◌≤◌, ◌<◌, ◌≡◌, ◌↔◌, ◌⊎◌, inl, inr, refl, sym, ap, subst, ◌∙◌, true, false,
  Option, some, none, List, [], ◌∷◌, Str, In, length, arith, Bool-cases, Option-cases, min, eqb,
}
use lumen_mq.Prelude.Result.{ok, ok-injective, Result-cases}
use lumen_mq.Security.Trie.{walk, BitTrie, contains_bits, insert_rule}
use lumen_mq.Security.Prefix.{contains_bits-insert}
use lumen_mq.Security.IpFilter.{
  IpAddr, v4, v6, Syntax, IpRule, width, mask_bits, apply_mask, rule_of, parse_rule, split_rule,
  prefix_or_width, IpFilter, empty_filter, add_to, add_rule, add_entries, new_filter,
  filter_is_empty, contains_ip, IpAcl, check_ip, allow, rsplit_once, parse_u8,
}

-- The bits of an address fit its version.
abbrev pub IsAddr : IpAddr → Type 0
IsAddr (v4 bits) = bits < 2 ^ 32
IsAddr (v6 bits) = bits < 2 ^ 128

-- The address has the version of the network and its first bits.
abbrev pub SamePrefix : ℕ → IpAddr → IpAddr → Type 0
SamePrefix p (v4 a) (v4 b) = a / 2 ^ (32 - p) ≡ b / 2 ^ (32 - p)
SamePrefix p (v6 a) (v6 b) = a / 2 ^ (128 - p) ≡ b / 2 ^ (128 - p)
SamePrefix p _ _ = ⊥

-- Some entry reads as a rule whose network shares the rule's prefix with the address.
abbrev pub Covered : Syntax → List Str → IpAddr → Type 0
Covered x entries ip =
    (e : Str) × In e entries
    × (rule : IpRule) × (parse_rule x e ≡ ok rule)
    × SamePrefix rule.prefix rule.network ip

-- What a rule that was read looks like.
abbrev ReadRule : IpRule → Type 0
ReadRule rule = IsAddr rule.network × (rule.prefix ≤ width rule.network)

-- The tries have the widths of the versions.
abbrev Widths : IpFilter → Type 0
Widths f = (f.v4_trie.max_bits ≡ 32) × (f.v6_trie.max_bits ≡ 128)

masked-lt : (w p bits : ℕ) → bits < 2 ^ w → mask_bits w p bits < 2 ^ w
masked-lt w p bits h = elim (Bool-cases (eqb (min p w) 0)) [
  | inl e ↦ rw e (omega (arith, h))
  | inr e ↦ rw e (omega (arith, div-mul-le_self bits (2 ^ (w - min p w)), h))
]

apply_mask-IsAddr : (ip : IpAddr) (p : ℕ) → IsAddr ip → IsAddr (apply_mask ip p)
apply_mask-IsAddr (v4 bits) p h = masked-lt 32 p bits h
apply_mask-IsAddr (v6 bits) p h = masked-lt 128 p bits h

width-apply_mask : (ip : IpAddr) (p : ℕ) → width (apply_mask ip p) ≡ width ip
width-apply_mask (v4 bits) p = refl
width-apply_mask (v6 bits) p = refl

-- The parser of addresses gives addresses.
abbrev pub GivesAddrs : Syntax → Type 0
GivesAddrs x = (s : Str) (ip : IpAddr) → x.parse_ip s ≡ some ip → IsAddr ip

rule_of-ReadRule :
    (o : Option IpAddr) (prefix : Option ℕ) (rule : IpRule)
    → ((ip : IpAddr) → o ≡ some ip → IsAddr ip)
    → rule_of o prefix ≡ ok rule
    → ReadRule rule
unfolding rule_of
rule_of-ReadRule none prefix rule v h = cc
rule_of-ReadRule (some ip) prefix rule v h =
    let p = prefix_or_width prefix ip in
    ground (arith, h, apply_mask-IsAddr ip p (v ip refl), width-apply_mask ip p)

parse_rule-ReadRule :
    (x : Syntax) (e : Str) (rule : IpRule) → GivesAddrs x → parse_rule x e ≡ ok rule → ReadRule rule
unfolding parse_rule
parse_rule-ReadRule x e rule g h = elim (Option-cases (rsplit_once (x.trim e))) [
  | inl n ↦
      rule_of-ReadRule (x.parse_ip (x.trim e)) none rule (g (x.trim e))
        (ap (split_rule x (x.trim e)) (sym n) ∙ h)
  | inr ((addr, p), n) ↦ elim (Option-cases (parse_u8 p)) [
    | inl z ↦ absurd (ground (arith, n, z, h))
    | inr (prefix, z) ↦
        rule_of-ReadRule (x.parse_ip addr) (some prefix) rule (g addr) (ground (arith, n, z, h))
  ]
]

at_width :
    (w n p i : ℕ) (t : BitTrie)
    → t.max_bits ≡ w
    → p ≤ w
    → n < 2 ^ w
    → i < 2 ^ w
    → (contains_bits i (insert_rule n p t) ≡ true)
      ↔ ((contains_bits i t ≡ true) ⊎ (n / 2 ^ (w - p) ≡ i / 2 ^ (w - p)))
at_width w n p i t e =
    subst
      (λ w.
        p ≤ w
        → n < 2 ^ w
        → i < 2 ^ w
        → (contains_bits i (insert_rule n p t) ≡ true)
          ↔ ((contains_bits i t ≡ true) ⊎ (n / 2 ^ (w - p) ≡ i / 2 ^ (w - p))))
      e (contains_bits-insert n p i t)

add_to-contains :
    (network : IpAddr) (p count : ℕ) (f : IpFilter) (ip : IpAddr)
    → IsAddr network
    → p ≤ width network
    → Widths f
    → IsAddr ip
    → (contains_ip ip (record (add_to network p f) { rule_count = count }) ≡ true)
      ↔ ((contains_ip ip f ≡ true) ⊎ SamePrefix p network ip)
unfolding contains_ip
add_to-contains (v4 n) p count f (v4 i) a l w b = at_width 32 n p i f.v4_trie w.0 l a b
add_to-contains (v6 n) p count f (v6 i) a l w b = at_width 128 n p i f.v6_trie w.1 l a b
add_to-contains (v4 n) p count f (v6 i) a l w b =
    (inl, λ h. elim h [ inl k ↦ k | inr k ↦ absurd k ])
add_to-contains (v6 n) p count f (v4 i) a l w b =
    (inl, λ h. elim h [ inl k ↦ k | inr k ↦ absurd k ])

add_to-Widths :
    (network : IpAddr) (p count : ℕ) (f : IpFilter)
    → Widths f
    → Widths (record (add_to network p f) { rule_count = count })
unfolding insert_rule
add_to-Widths (v4 n) p count f w = w
add_to-Widths (v6 n) p count f w = w

add_entries-Covered :
    (x : Syntax) (entries : List Str) (f g : IpFilter) (ip : IpAddr)
    → GivesAddrs x
    → Widths f
    → IsAddr ip
    → add_entries x entries f ≡ ok g
    → (contains_ip ip g ≡ true) ↔ ((contains_ip ip f ≡ true) ⊎ Covered x entries ip)
unfolding add_entries add_rule
add_entries-Covered x [] f g ip v w a h =
    let same : f ≡ g = ok-injective h in
    rw (← same) (inl, λ k. elim k [ inl there ↦ there | inr (e, i, r, m, p) ↦ absurd i ])
add_entries-Covered x (e ∷ entries) f g ip v w a h = elim (Result-cases (parse_rule x e)) [
  | inl (bad, n) ↦ absurd (ground (arith, n, h))
  | inr (rule, n) ↦
      let read = parse_rule-ReadRule x e rule v n in
      let rest : add_entries x entries (add_rule rule f) ≡ ok g = ground (arith, n, h) in
      let later =
        add_entries-Covered x entries (add_rule rule f) g ip v
          (add_to-Widths rule.network rule.prefix (f.rule_count + 1) f w) a rest in
      let here =
        add_to-contains rule.network rule.prefix (f.rule_count + 1) f ip read.0 read.1 w a in
      (
        λ k. elim (later.0 k) [
          | inl c ↦ elim (here.0 c) [
            | inl before ↦ inl before
            | inr same ↦ inr (e, inl refl, rule, n, same)
          ]
          | inr (e', i, r, m, p) ↦ inr (e', inr i, r, m, p)
        ],
        λ k. elim k [
          | inl before ↦ later.1 (inl (here.1 (inl before)))
          | inr (e', inl same, r, m, s) ↦
              let same_rule : r ≡ rule = ok-injective (sym m ∙ ap (parse_rule x) same ∙ n) in
              later.1
                (inl (here.1 (inr (subst (λ r. SamePrefix r.prefix r.network ip) same_rule s))))
          | inr (e', inr i, r, m, s) ↦ later.1 (inr (e', i, r, m, s))
        ],
      )
]

contains_ip-empty : (ip : IpAddr) → contains_ip ip empty_filter ≡ false
unfolding contains_ip contains_bits walk
contains_ip-empty (v4 bits) = refl
contains_ip-empty (v6 bits) = refl

-- A filter that `IpFilter::new` builds contains exactly the addresses that some entry covers.
pub new_filter-Covered :
    (x : Syntax) (entries : List Str) (f : IpFilter) (ip : IpAddr)
    → GivesAddrs x
    → IsAddr ip
    → new_filter x entries ≡ ok f
    → (contains_ip ip f ≡ true) ↔ Covered x entries ip
new_filter-Covered x entries f ip v a h =
    let all = add_entries-Covered x entries empty_filter f ip v (refl, refl) a h in
    (
      λ k. elim (all.0 k) [ inl c ↦ absurd (ground (arith, c, contains_ip-empty ip)) | inr c ↦ c ],
      λ c. all.1 (inr c),
    )

add_entries-count :
    (x : Syntax) (entries : List Str) (f g : IpFilter)
    → add_entries x entries f ≡ ok g
    → g.rule_count ≡ f.rule_count + length entries
unfolding add_entries add_rule
add_entries-count x [] f g h = let same : f ≡ g = ok-injective h in rw (← same) (omega arith)
add_entries-count x (e ∷ entries) f g h = elim (Result-cases (parse_rule x e)) [
  | inl (bad, n) ↦ absurd (ground (arith, n, h))
  | inr (rule, n) ↦
      omega (arith, add_entries-count x entries (add_rule rule f) g (ground (arith, n, h)))
]

whitelist_empty :
    (x : Syntax) (entries : List Str) (f : IpFilter)
    → new_filter x entries ≡ ok f
    → (filter_is_empty f ≡ true) ↔ (entries ≡ [])
whitelist_empty x [] f h = ground (arith, add_entries-count x [] empty_filter f h)
whitelist_empty x (e ∷ entries) f h =
    ground (arith, add_entries-count x (e ∷ entries) empty_filter f h)

-- With lists that were built from entries, an address is let in exactly if no entry of the black
-- list covers it and the white list has no entries or one that covers it.
pub check_ip_allows :
    (x : Syntax) (black white : List Str) (acl : IpAcl) (ip : IpAddr)
    → GivesAddrs x
    → IsAddr ip
    → new_filter x black ≡ ok acl.blacklist
    → new_filter x white ≡ ok acl.whitelist
    → (check_ip ip acl ≡ allow) ↔ ((¬ Covered x black ip) × ((white ≡ []) ⊎ Covered x white ip))
unfolding check_ip
check_ip_allows x black white acl ip v a hb hw =
    let inb = new_filter-Covered x black acl.blacklist ip v a hb in
    let inw = new_filter-Covered x white acl.whitelist ip v a hw in
    let none = whitelist_empty x white acl.whitelist hw in
    elim (Bool-cases (contains_ip ip acl.blacklist)) [
      | inl b ↦ rw b ((λ h. cc), λ (out, w). absurd (out (inb.0 b)))
      | inr b ↦
          let out : ¬ Covered x black ip = λ c. absurd (ground (arith, inb.1 c, b)) in
          elim (Bool-cases (filter_is_empty acl.whitelist)) [
            | inl e ↦ rw (b, e) ((λ h. (out, inl (none.0 e))), λ _. refl)
            | inr e ↦ elim (Bool-cases (contains_ip ip acl.whitelist)) [
              | inl w ↦ rw (b, e, w) ((λ h. (out, inr (inw.0 w))), λ _. refl)
              | inr w ↦
                  rw (b, e, w)
                    (
                      (λ h. cc),
                      λ (o, k). elim k [
                        | inl z ↦ absurd (ground (arith, none.1 z, e))
                        | inr c ↦ absurd (ground (arith, inw.1 c, w))
                      ],
                    )
            ]
          ]
    ]
