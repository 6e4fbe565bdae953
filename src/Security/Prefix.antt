-- ===== src/Security/Prefix.antt =====
-- src/security/ip_filter.rs: an insertion into the trie adds exactly the addresses that have the
-- prefix.
use native.Mathlib.Nat.{div-div-eq-div-mul, div-eq_of_lt, pow-suc, pow-zero, mul_assoc}
use lumen_mq.Prelude.{
  ℕ, zero, suc, ◌+◌, ◌-◌, ◌*◌, ◌/◌, ◌%◌, ◌^◌, ◌≤◌, ◌<◌, ◌≡◌, ◌↔◌, ◌⊎◌, ap, sym, ◌∙◌, min, eqb_iff,
  refl, Bool, true, false, not, ◌||◌, if◌then◌else◌, eqb, arith, Bool-cases, inl, inr,
}
use lumen_mq.Security.Trie.{
  TrieNode, absent, trie_node, present, mark, is_terminal, bit_at, child_of, with_child,
  insert_path, walk, BitTrie, insert_rule, contains_bits,
}

-- `left` bits agree, from the one at `shift` down.
agree : ℕ → ℕ → ℕ → ℕ → Bool
agree zero shift a b = true
agree (suc left) shift a b =
    let rest = agree left (shift - 1) a b in
    if eqb (a / 2 ^ shift % 2) (b / 2 ^ shift % 2) then rest else false

hit : ℕ → ℕ → TrieNode → Bool
hit left ip n = if is_terminal n then true else walk left ip n

hit-absent : (left ip : ℕ) → hit left ip absent ≡ false
unfolding hit walk
hit-absent zero ip = refl
hit-absent (suc left) ip = hit-absent left ip

-- A node with a child: the child of the address's bit decides.
hit-node :
    (left ip : ℕ) (t : Bool) (zeros ones : TrieNode)
    → hit (suc left) ip (trie_node t zeros ones)
      ≡ (t || hit left ip (if bit_at left ip then ones else zeros))
unfolding hit walk
hit-node left ip t zeros ones = ground arith

hit-present_new : (left ip : ℕ) → hit (suc left) ip (present absent) ≡ hit (suc left) ip absent
hit-present_new left ip =
    ground
      (arith, hit-node left ip false absent absent, hit-absent left ip, hit-absent (suc left) ip)

hit-present : (left ip : ℕ) (n : TrieNode) → hit left ip (present n) ≡ hit left ip n
unfolding hit walk
hit-present zero ip absent = refl
hit-present (suc left) ip absent = hit-present_new left ip
hit-present left ip (trie_node t zeros ones) = refl

-- The bits of two addresses at a place agree.
same_bit :
    (shift a b : ℕ)
    → eqb (a / 2 ^ shift % 2) (b / 2 ^ shift % 2)
      ≡ (if bit_at shift a then bit_at shift b else not (bit_at shift b))
same_bit shift a b = ground arith

hit-with_child :
    (left ip : ℕ) (b : Bool) (new n : TrieNode)
    → hit (suc left) ip (with_child b new (present n)) ≡ (
        is_terminal n
        || hit left ip (
            if (if b then bit_at left ip else not (bit_at left ip))
            then new
            else child_of (bit_at left ip) n))
hit-with_child left ip true new absent =
    ground (arith, hit-node left ip false absent new, hit-absent left ip)
hit-with_child left ip false new absent =
    ground (arith, hit-node left ip false new absent, hit-absent left ip)
hit-with_child left ip true new (trie_node t zeros ones) =
    ground (arith, hit-node left ip t zeros new)
hit-with_child left ip false new (trie_node t zeros ones) =
    ground (arith, hit-node left ip t new ones)

-- A hit below an inner node is a hit at it or below the child of the address's bit.
hit-suc :
    (left ip : ℕ) (n : TrieNode)
    → hit (suc left) ip n ≡ (is_terminal n || hit left ip (child_of (bit_at left ip) n))
unfolding hit walk
hit-suc left ip n = ground arith

hit-mark : (left ip : ℕ) (n : TrieNode) → hit left ip (mark n) ≡ true
unfolding hit
hit-mark left ip absent = refl
hit-mark left ip (trie_node t zeros ones) = refl

child_of-present : (b : Bool) (n : TrieNode) → child_of b (present n) ≡ child_of b n
child_of-present true absent = refl
child_of-present false absent = refl
child_of-present b (trie_node t zeros ones) = refl

-- Insertion adds the addresses that agree with the network in the bits of the path.
hit-insert :
    (left bits network ip : ℕ) (n : TrieNode)
    → left ≤ bits
    → hit bits ip (insert_path left (bits - 1) network n)
      ≡ (hit bits ip n || agree left (bits - 1) network ip)
unfolding insert_path agree
hit-insert zero bits network ip n h = ground (arith, hit-mark bits ip n)
hit-insert (suc left) zero network ip n h = absurd (omega (arith, h))
hit-insert (suc left) (suc bits) network ip n h =
    let b = bit_at bits network in
    let new = insert_path left (bits - 1) network (child_of b (present n)) in
    let below = hit-insert left bits network ip (child_of b (present n)) (omega (arith, h)) in
    ground (
      arith,
      below,
      hit-with_child bits ip b new n,
      hit-suc bits ip n,
      child_of-present b n,
      same_bit bits network ip,
    )

half : (a s : ℕ) → a / 2 ^ suc s ≡ a / 2 ^ s / 2
half a s = ap (λ d. a / d) (pow-suc 2 s) ∙ sym (div-div-eq-div-mul a (2 ^ s) 2)

pow_sum : (a b : ℕ) → 2 ^ (a + b) ≡ 2 ^ a * 2 ^ b
pow_sum a zero = let whole : a + 0 ≡ a = omega arith in rw (whole, pow-zero 2) (omega arith)
pow_sum a (suc b) =
    let next : a + suc b ≡ suc (a + b) = omega arith in
    rw (next, pow-suc 2 (a + b), pow-suc 2 b, pow_sum a b) (mul_assoc (2 ^ a) (2 ^ b) 2)

-- The bits above a place are those above a lower place, without the ones between.
upper : (a low more : ℕ) → a / 2 ^ (low + more) ≡ a / 2 ^ low / 2 ^ more
upper a low more =
    ap (λ d. a / d) (pow_sum low more) ∙ sym (div-div-eq-div-mul a (2 ^ low) (2 ^ more))

same_above :
    (bits a b : ℕ)
    → a / 2 ^ suc bits ≡ b / 2 ^ suc bits
    → a / 2 ^ bits % 2 ≡ b / 2 ^ bits % 2
    → a / 2 ^ bits ≡ b / 2 ^ bits
same_above bits a b h r =
    let halves : a / 2 ^ bits / 2 ≡ b / 2 ^ bits / 2 = sym (half a bits) ∙ h ∙ half b bits in
    omega (arith, halves, r)

-- Where the bits above agree, the next ones agree exactly where the quotients do.
differ :
    (left bits a b : ℕ)
    → left ≤ bits
    → a / 2 ^ (bits - left) ≡ b / 2 ^ (bits - left)
    → a / 2 ^ bits ≡ b / 2 ^ bits
differ left bits a b h e =
    let whole : bits ≡ (bits - left) + left = omega (arith, h) in
    ap (λ s. a / 2 ^ s) whole
    ∙ upper a (bits - left) left
    ∙ ap (λ q. q / 2 ^ left) e
    ∙ sym (upper b (bits - left) left)
    ∙ sym (ap (λ s. b / 2 ^ s) whole)

agree_iff :
    (left bits a b : ℕ)
    → left ≤ bits
    → a / 2 ^ bits ≡ b / 2 ^ bits
    → (agree left (bits - 1) a b ≡ true) ↔ (a / 2 ^ (bits - left) ≡ b / 2 ^ (bits - left))
unfolding agree
agree_iff zero bits a b h e =
    let whole : bits - 0 ≡ bits = omega arith in rw whole (λ _. e, λ _. refl)
agree_iff (suc left) zero a b h e = absurd (omega (arith, h))
agree_iff (suc left) (suc bits) a b h e =
    let shorter : suc bits - suc left ≡ bits - left = omega arith in
    let below : suc bits - 1 ≡ bits = omega arith in
    let fits : left ≤ bits = omega (arith, h) in
    rw (shorter, below)
      (elim (Bool-cases (eqb (a / 2 ^ bits % 2) (b / 2 ^ bits % 2))) [
        | inl same ↦
            rw same (agree_iff left bits a b fits (same_above bits a b e ((eqb_iff _ _).0 same)))
        | inr other ↦ rw other (
          (λ z. absurd (ground (arith, z))),
          λ z. absurd (ground (arith, other, differ left bits a b fits z)),
        )
      ])

-- `contains` after `insert`: the addresses that had a rule, and those with the rule's prefix.
pub contains_bits-insert :
    (network prefix ip : ℕ) (t : BitTrie)
    → prefix ≤ t.max_bits
    → network < 2 ^ t.max_bits
    → ip < 2 ^ t.max_bits
    → (contains_bits ip (insert_rule network prefix t) ≡ true) ↔ (
        (contains_bits ip t ≡ true)
        ⊎ (network / 2 ^ (t.max_bits - prefix) ≡ ip / 2 ^ (t.max_bits - prefix)))
unfolding contains_bits insert_rule hit
contains_bits-insert network prefix ip t p n i =
    let least : min prefix t.max_bits ≡ prefix = omega (arith, p) in
    let quotients : network / 2 ^ t.max_bits ≡ ip / 2 ^ t.max_bits =
      div-eq_of_lt n ∙ sym (div-eq_of_lt i) in
    let inserted = hit-insert prefix t.max_bits network ip t.root p in
    rw least (ground (arith, inserted, agree_iff prefix t.max_bits network ip p quotients))
