-- ===== src/Prelude/Classes.antt =====
-- `PartialEq` for the key types: a Boolean test that decides equality.
use Prim.Native.Nat.{ℕ}
use mathlib.Core.Path.{◌≡◌, refl}
use mathlib.Core.Logic.{◌↔◌}
use mathlib.Core.Bool.{Bool, true, false, ◌&&◌}
use mathlib.Core.List.{List, [], ◌∷◌}
use native.Mathlib.Omega.{arith}
use lumen_mq.Prelude.Tests.{eqb, eqb_iff}

pub record Key {ℓ} (A : Type ℓ) : Type ℓ where
  pub same : A → A → Bool
  pub same_iff : (a b : A) → (same a b ≡ true) ↔ (a ≡ b)

infix 50 ◌==◌
abbrev pub ◌==◌ {ℓ} : {A : Type ℓ} ⦃e : Key A⦄ → A → A → Bool
◌==◌ ⦃e⦄ = e.same

pub ==_refl {ℓ} : {A : Type ℓ} ⦃e : Key A⦄ (a : A) → (a == a) ≡ true
==_refl ⦃e⦄ a = (e.same_iff a a).1 refl

instance abbrev pub nat_key : Key ℕ
nat_key = record { same = eqb; same_iff = eqb_iff }

module _ {ℓ} {A : Type ℓ} ⦃e : Key A⦄ where
  unfoldable pub list_same : List A → List A → Bool
  list_same [] [] = true
  list_same [] (b ∷ bs) = false
  list_same (a ∷ as') [] = false
  list_same (a ∷ as') (b ∷ bs) = (a == b) && list_same as' bs

  pub list_same_iff : (as' bs : List A) → (list_same as' bs ≡ true) ↔ (as' ≡ bs)
  unfolding list_same
  list_same_iff [] [] = (λ h. refl, λ h. refl)
  list_same_iff [] (b ∷ bs) = (λ h. cc, λ h. cc)
  list_same_iff (a ∷ as') [] = (λ h. cc, λ h. cc)
  list_same_iff (a ∷ as') (b ∷ bs) = ground (arith, e.same_iff a b, list_same_iff as' bs)

  instance abbrev pub list_key : Key (List A)
  list_key = record { same = list_same; same_iff = list_same_iff }

module _ {ℓ κ} {A : Type ℓ} {B : Type κ} ⦃e : Key A⦄ ⦃f : Key B⦄ where
  unfoldable pub pair_same : A × B → A × B → Bool
  pair_same p q = (p.0 == q.0) && (p.1 == q.1)

  pub pair_same_iff : (p q : A × B) → (pair_same p q ≡ true) ↔ (p ≡ q)
  unfolding pair_same
  pair_same_iff (a, b) (c, d) = ground (arith, e.same_iff a c, f.same_iff b d)

  instance abbrev pub pair_key : Key (A × B)
  pair_key = record { same = pair_same; same_iff = pair_same_iff }
