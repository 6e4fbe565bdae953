-- ===== src/Broker/Subscription/Group.antt =====
-- src/broker/subscription.rs: the members of a shared group take turns.
use lumen_mq.Prelude.{
  ℕ, zero, suc, ◌+◌, ◌%◌, ◌^◌, ◌≤◌, ◌<◌, ◌≡◌, ◌↔◌, ◌≢◌, ◌⊎◌, refl, sym, ap, subst, ◌∙◌, List, [],
  ◌∷◌, Str, true, false, arith, nat_key, list_key, Option, some, is_empty, inl, inr, In, length,
  ltb, ltb→lt, ltb→le, Bool-cases, eqb, not, ◌&&◌,
}
use native.Mathlib.Nat.{mod-lt, mod-add-mod, mod-eq_of_lt, mod_self}
use lumen_mq.Codec.Packet.{QoS}
use lumen_mq.Broker.Topic.{topic_matches_filter}
use lumen_mq.Broker.Subscription.{SharedEntry, Groups}
use lumen_mq.Broker.Subscription.Select.{
  place, sort_by_id, member_at, next_member, select_members, select_if,
}
use lumen_mq.Broker.Subscription.Tree.{Subscribers}

-- The members that the next deliveries go to.
unfoldable pub turns : ℕ → SharedEntry → List (Option (Str × QoS))
unfolding next_member
turns zero entry = []
turns (suc k) entry = (next_member entry).0 ∷ turns k (next_member entry).1

length-place : (x : Str × QoS) (ys : Subscribers) → length (place x ys) ≡ suc (length ys)
unfolding place
length-place x [] = refl
length-place x (y ∷ ys) = ground (arith, length-place x ys)

length-sort : (xs : Subscribers) → length (sort_by_id xs) ≡ length xs
unfolding sort_by_id
length-sort [] = refl
length-sort (x ∷ xs) = omega (arith, length-place x (sort_by_id xs), length-sort xs)

In-place : (z x : Str × QoS) (ys : Subscribers) → In z (place x ys) ↔ In z (x ∷ ys)
unfolding place
In-place z x [] = (λ h. h, λ h. h)
In-place z x (y ∷ ys) = ground (arith, In-place z x ys)

In-sort : (z : Str × QoS) (xs : Subscribers) → In z (sort_by_id xs) ↔ In z xs
unfolding sort_by_id
In-sort z [] = (λ h. h, λ h. h)
In-sort z (x ∷ xs) = ground (arith, In-place z x (sort_by_id xs), In-sort z xs)

In-member_at :
    {A : Type 0} (x : A) (xs : List A)
    → In x xs
    → (i : ℕ) × (i < length xs) × (member_at i xs ≡ some x)
In-member_at x [] h = absurd h
In-member_at x (y ∷ ys) (inl e) = (0, omega arith, ap some (sym e))
In-member_at x (y ∷ ys) (inr h) = let (i, b, e) = In-member_at x ys h in (suc i, omega arith, e)

member_at-In :
    {A : Type 0} (i : ℕ) (xs : List A)
    → i < length xs
    → (x : A) × (member_at i xs ≡ some x) × In x xs
member_at-In i [] h = absurd (omega arith)
member_at-In zero (x ∷ xs) h = (x, refl, inl refl)
member_at-In (suc i) (x ∷ xs) h = let (y, e, k) = member_at-In i xs (omega arith) in (y, e, inr k)

is_empty-positive : {A : Type 0} (xs : List A) → is_empty xs ≡ false → 0 < length xs
is_empty-positive [] h = cc
is_empty-positive (x ∷ xs) h = omega arith

next_mod : (c n : ℕ) → 0 < n → ((c + 1) % n ≡ c % n + 1) ⊎ (((c + 1) % n ≡ 0) × (c % n + 1 ≡ n))
next_mod c n h = elim (Bool-cases (ltb (c % n + 1) n)) [
  | inl e ↦ inl (sym (mod-add-mod c n 1) ∙ mod-eq_of_lt (ltb→lt (c % n + 1) n e))
  | inr e ↦
      let last : c % n + 1 ≡ n = omega (arith, ltb→le (c % n + 1) n e, mod-lt c h) in
      inr (sym (mod-add-mod c n 1) ∙ ap (λ m. m % n) last ∙ mod_self n, last)
]

eqb→eq : {a b : ℕ} → eqb a b ≡ true → a ≡ b
eqb→eq h = ground arith

eqb→ne : {a b : ℕ} → eqb a b ≡ false → a ≢ b
eqb→ne h = ground arith

no_wrap : (c k : ℕ) → c + suc k ≤ 2 ^ 64 → k ≢ 0 → (c + 1) % 2 ^ 64 ≡ c + 1
no_wrap c k h z = mod-eq_of_lt (omega arith)

-- Within the next `k` turns comes the member at each of the next `k` places, counted round.
turns_reach :
    (k : ℕ) (entry : SharedEntry) (i : ℕ) (x : Str × QoS)
    → let n = length entry.members in
      let r = entry.rr_counter % n in
      i < n
      → entry.rr_counter + k ≤ 2 ^ 64
      → member_at i (sort_by_id entry.members) ≡ some x
      → ((r ≤ i) × (i < r + k)) ⊎ (i + n < r + k)
      → In (some x) (turns k entry)
unfolding turns next_member
turns_reach zero entry i x b c m w =
    absurd (omega (arith, w, mod-lt entry.rr_counter {m = length entry.members} (omega (arith, b))))
turns_reach (suc k) entry i x b c m w =
    elim (Bool-cases (eqb i (entry.rr_counter % length entry.members))) [
      | inl e ↦ inl (sym m ∙ ap (λ j. member_at j (sort_by_id entry.members)) (eqb→eq e))
      | inr e ↦
          let n = length entry.members in
          let positive : 0 < n = omega (arith, b) in
          let small = mod-lt entry.rr_counter {m = n} positive in
          let apart : i ≢ entry.rr_counter % n = λ z. absurd (eqb→ne e z) in
          let more : k ≢ 0 = λ z. omega (arith, w, small, apart, z, b) in
          let plain = no_wrap entry.rr_counter k c more in
          let next = ap (λ a. a % n) plain in
          let turned = next_mod entry.rr_counter n positive in
          inr (
            turns_reach k (record entry { rr_counter = (entry.rr_counter + 1) % 2 ^ 64 }) i x b
              (omega (arith, plain, c)) m (omega (arith, next, turned, w, small, apart, b)))
    ]

-- On a group whose counter does not wrap within the next round, each member is chosen within as
-- many deliveries as the group has members.
pub turns_fair :
    (entry : SharedEntry) (x : Str × QoS)
    → In x entry.members
    → entry.rr_counter + length entry.members ≤ 2 ^ 64
    → In (some x) (turns (length entry.members) entry)
turns_fair entry x h c =
    let (i, b, m) = In-member_at x (sort_by_id entry.members) ((In-sort x entry.members).1 h) in
    let bound : i < length entry.members = omega (arith, b, length-sort entry.members) in
    turns_reach (length entry.members) entry i x bound c m (
      omega
        (arith, bound, mod-lt entry.rr_counter {m = length entry.members} (omega (arith, bound))))

-- A group that the topic matches has the member.
abbrev pub Chosen : Str → Groups → Str × QoS → Type 0
Chosen topic groups x =
    (key : Str × Str) × (entry : SharedEntry) × In (key, entry) groups
    × (topic_matches_filter topic key.1 ≡ true)
    × In x entry.members

select_later :
    (k : Str × Str) (e : SharedEntry) (topic : Str) (groups : Groups) (x : Str × QoS)
    → Chosen topic groups x
    → Chosen topic ((k, e) ∷ groups) x
select_later k e topic groups x (key, entry, i, m, h) = (key, entry, inr i, m, h)

chosen :
    (entry : SharedEntry) (rest : List (Str × QoS)) (x : Str × QoS)
    → In x (select_if (next_member entry).0 rest)
    → is_empty entry.members ≡ false
    → In x entry.members ⊎ In x rest
unfolding next_member
chosen entry rest x h e =
    let n = length entry.members in
    let positive : 0 < n = is_empty-positive entry.members e in
    let small : entry.rr_counter % n < length (sort_by_id entry.members) =
      omega (arith, mod-lt entry.rr_counter {m = n} positive, length-sort entry.members) in
    let (y, at, k) = member_at-In (entry.rr_counter % n) (sort_by_id entry.members) small in
    elim (subst (λ o. In x (select_if o rest)) at h) [
      | inl same ↦ inl (rw same ((In-sort y entry.members).0 k))
      | inr later ↦ inr later
    ]

-- `matches_shared` chooses only members of groups whose filter the topic matches.
pub select_members_sound :
    (topic : Str) (groups : Groups) (x : Str × QoS)
    → In x (select_members topic groups).0
    → Chosen topic groups x
unfolding select_members next_member
select_members_sound topic [] x h = absurd h
select_members_sound topic ((key, entry) ∷ groups) x h =
    elim (Bool-cases (topic_matches_filter topic key.1 && not (is_empty entry.members))) [
      | inl e ↦
          elim (chosen entry (select_members topic groups).0 x (ground (arith, h, e))
            (ground (arith, e))) [
              | inl here ↦ (key, entry, inl refl, ground (arith, e), here)
              | inr later ↦
                  select_later key entry topic groups x (select_members_sound topic groups x later)
            ]
      | inr e ↦
          select_later key entry topic groups x
            (select_members_sound topic groups x (ground (arith, h, e)))
    ]
