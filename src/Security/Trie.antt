-- ===== src/Security/Trie.antt =====
-- src/security/ip_filter.rs: `TrieNode` and `BitTrie`, the tree of address prefixes by bits.
use lumen_mq.Prelude.{ℕ, zero, suc, ◌-◌, ◌/◌, ◌%◌, ◌^◌, min, Bool, true, false, if◌then◌else◌, eqb}

-- A node says whether a prefix ends at it, and has a child for the bit 0 and one for the bit 1.
pub data TrieNode : Type 0 where
  absent : TrieNode
  trie_node : Bool → TrieNode → TrieNode → TrieNode

-- `get_or_insert` of a new node.
abbrev pub present : TrieNode → TrieNode
present absent = trie_node false absent absent
present (trie_node terminal zeros ones) = trie_node terminal zeros ones

abbrev pub mark : TrieNode → TrieNode
mark absent = trie_node true absent absent
mark (trie_node terminal zeros ones) = trie_node true zeros ones

abbrev pub is_terminal : TrieNode → Bool
is_terminal absent = false
is_terminal (trie_node terminal zeros ones) = terminal

-- `(bits >> shift) & 1 == 1`.
abbrev pub bit_at : ℕ → ℕ → Bool
bit_at shift bits = eqb (bits / 2 ^ shift % 2) 1

abbrev pub child_of : Bool → TrieNode → TrieNode
child_of b absent = absent
child_of b (trie_node terminal zeros ones) = if b then ones else zeros

abbrev pub with_child : Bool → TrieNode → TrieNode → TrieNode
with_child b new absent = absent
with_child b new (trie_node terminal zeros ones) =
    if b then trie_node terminal zeros new else trie_node terminal new ones

-- The loop of `insert`: `left` bits are still to be walked, the next one at `shift`.
unfoldable pub insert_path : ℕ → ℕ → ℕ → TrieNode → TrieNode
insert_path zero shift network node = mark node
insert_path (suc left) shift network node =
    let b = bit_at shift network in
    with_child b (insert_path left (shift - 1) network (child_of b (present node))) (present node)

-- The loop of `contains`.
unfoldable pub walk : ℕ → ℕ → TrieNode → Bool
walk zero ip node = false
walk (suc left) ip node =
    let child = child_of (bit_at left ip) node in
    let later = walk left ip child in if is_terminal child then true else later

pub record BitTrie : Type 0 where
  pub root : TrieNode
  pub max_bits : ℕ

abbrev pub new_trie : ℕ → BitTrie
new_trie max_bits = record { root = absent; max_bits = max_bits }

unfoldable pub insert_rule : ℕ → ℕ → BitTrie → BitTrie
unfolding insert_path
insert_rule network prefix t = record t {
  root = insert_path (min prefix t.max_bits) (t.max_bits - 1) network t.root;
}

unfoldable pub contains_bits : ℕ → BitTrie → Bool
unfolding walk
contains_bits ip t = if is_terminal t.root then true else walk t.max_bits ip t.root
