-- ===== src/Broker/Auth/Comparison.antt =====
-- src/broker/auth.rs: the comparison in constant time decides equality.
use lumen_mq.Prelude.{
  ℕ, zero, suc, ◌/◌, ◌^◌, ◌<◌, ◌≡◌, ◌↔◌, ap, refl, true, [], ◌∷◌, Bytes, eqb, length, All, arith,
  Bool-cases, inl, inr,
}
use lumen_mq.Broker.Auth.{bit_xor, bit_or, gather_diff, constant_time_eq}

abbrev pub IsByte : ℕ → Type 0
IsByte b = b < 256

halved : (bits a : ℕ) → a < 2 ^ suc bits → a / 2 < 2 ^ bits
halved bits a h = omega arith

bit_xor-zero : (bits a b : ℕ) → a < 2 ^ bits → b < 2 ^ bits → (bit_xor bits a b ≡ 0) ↔ (a ≡ b)
unfolding bit_xor
bit_xor-zero zero a b h k = ground arith
bit_xor-zero (suc bits) a b h k =
    ground (arith, bit_xor-zero bits (a / 2) (b / 2) (halved bits a h) (halved bits b k))

bit_or-zero :
    (bits a b : ℕ) → a < 2 ^ bits → b < 2 ^ bits → (bit_or bits a b ≡ 0) ↔ ((a ≡ 0) × (b ≡ 0))
unfolding bit_or
bit_or-zero zero a b h k = ground arith
bit_or-zero (suc bits) a b h k =
    ground (arith, bit_or-zero bits (a / 2) (b / 2) (halved bits a h) (halved bits b k))

bit_xor-lt : (bits a b : ℕ) → bit_xor bits a b < 2 ^ bits
unfolding bit_xor
bit_xor-lt zero a b = omega arith
bit_xor-lt (suc bits) a b = ground (arith, bit_xor-lt bits (a / 2) (b / 2))

bit_or-lt : (bits a b : ℕ) → bit_or bits a b < 2 ^ bits
unfolding bit_or
bit_or-lt zero a b = omega arith
bit_or-lt (suc bits) a b = ground (arith, bit_or-lt bits (a / 2) (b / 2))

same_cons : {a b : ℕ} {as' bs : Bytes} → a ≡ b → as' ≡ bs → (a ∷ as') ≡ (b ∷ bs)
same_cons h k = cc

head_same : {a b : ℕ} {as' bs : Bytes} → (a ∷ as') ≡ (b ∷ bs) → a ≡ b
head_same h = cc

tail_same : {a b : ℕ} {as' bs : Bytes} → (a ∷ as') ≡ (b ∷ bs) → as' ≡ bs
tail_same h = cc

gather_diff-zero :
    (diff : ℕ) (as' bs : Bytes)
    → diff < 256
    → length as' ≡ length bs
    → All IsByte as'
    → All IsByte bs
    → (gather_diff diff as' bs ≡ 0) ↔ ((diff ≡ 0) × (as' ≡ bs))
unfolding gather_diff
gather_diff-zero diff [] [] d l u v = ground arith
gather_diff-zero diff [] (b ∷ bs) d l u v = absurd (omega (arith, l))
gather_diff-zero diff (a ∷ as') [] d l u v = absurd (omega (arith, l))
gather_diff-zero diff (a ∷ as') (b ∷ bs) d l u v =
    let x = bit_xor 8 a b in
    let rest =
      gather_diff-zero (bit_or 8 diff x) as' bs (bit_or-lt 8 diff x) (omega (arith, l)) u.1 v.1 in
    let here = bit_or-zero 8 diff x d (bit_xor-lt 8 a b) in
    let same = bit_xor-zero 8 a b u.0 v.0 in
    (
      (λ h. ((here.0 (rest.0 h).0).0, same_cons (same.0 (here.0 (rest.0 h).0).1) (rest.0 h).1)),
      λ (z, e). rest.1 (here.1 (z, same.1 (head_same e)), tail_same e),
    )

-- On bytes, the comparison in constant time says yes exactly for equal sequences.
pub constant_time_eq_iff :
    (as' bs : Bytes)
    → All IsByte as'
    → All IsByte bs
    → (constant_time_eq as' bs ≡ true) ↔ (as' ≡ bs)
unfolding constant_time_eq
constant_time_eq_iff as' bs u v = elim (Bool-cases (eqb (length as') (length bs))) [
  | inl e ↦
      let gathered = gather_diff-zero 0 as' bs (omega arith) (ground (arith, e)) u v in
      rw e ((λ h. (gathered.0 (ground (arith, h))).1), λ z. ground (arith, gathered.1 (refl, z)))
  | inr e ↦ rw e ((λ h. cc), λ z. ground (arith, e, ap length z))
]
