-- ===== src/Prelude/Assoc.antt =====
-- `HashMap` and `HashSet` as association lists. Iteration is in the list's order, which the
-- source leaves open; no theorem rests on it. A key stands at most once where a map is well formed.
use Prim.Native.Nat.{suc}
use mathlib.Core.Path.{◌≡◌, refl}
use mathlib.Core.Logic.{◌≢◌}
use mathlib.Core.List.{List, [], ◌∷◌}
use mathlib.Core.Option.{Option, none, some}
use native.Mathlib.Omega.{arith}
use lumen_mq.Prelude.Tests.{if◌then◌else◌}
use lumen_mq.Prelude.Lists.{length}
use lumen_mq.Prelude.Classes.{Key, ◌==◌}

abbrev pub Assoc {ℓ κ} : Type ℓ → Type κ → Type (ℓ ⊔ κ)
Assoc K V = List (K × V)

module _ {ℓ κ} {K : Type ℓ} {V : Type κ} ⦃e : Key K⦄ where
  -- `get`.
  unfoldable pub lookup : K → Assoc K V → Option V
  lookup key [] = none
  lookup key ((k, v) ∷ rest) = if k == key then some v else lookup key rest

  -- `insert`: the value under a present key is replaced.
  unfoldable pub insert : K → V → Assoc K V → Assoc K V
  insert key new [] = (key, new) ∷ []
  insert key new ((k, v) ∷ rest) =
      if k == key then (key, new) ∷ rest else (k, v) ∷ insert key new rest

  -- `remove`, without the value that it returns.
  unfoldable pub remove : K → Assoc K V → Assoc K V
  remove key [] = []
  remove key ((k, v) ∷ rest) = if k == key then remove key rest else (k, v) ∷ remove key rest

  pub lookup-insert :
      (key at : K) (new : V) (entries : Assoc K V)
      → lookup at (insert key new entries) ≡ (if key == at then some new else lookup at entries)
  unfolding insert lookup
  lookup-insert key at new [] = refl
  lookup-insert key at new ((k, v) ∷ rest) =
      let elsewhere = lookup-insert key at new rest in
      ground (arith, elsewhere, e.same_iff k at, e.same_iff k key, e.same_iff key at)

  pub lookup-remove :
      (key at : K) (entries : Assoc K V)
      → lookup at (remove key entries) ≡ (if key == at then none else lookup at entries)
  unfolding remove lookup
  lookup-remove key at [] = ground arith
  lookup-remove key at ((k, v) ∷ rest) =
      let elsewhere = lookup-remove key at rest in
      ground (arith, elsewhere, e.same_iff k at, e.same_iff k key, e.same_iff key at)

  -- Each key stands once.
  abbrev pub IsMap : Assoc K V → Type κ
  IsMap [] = Unit
  IsMap ((k, v) ∷ m) = (lookup k m ≡ none) × IsMap m

  pub insert-IsMap : (k : K) (v : V) (m : Assoc K V) → IsMap m → IsMap (insert k v m)
  unfolding lookup insert
  insert-IsMap k v [] h = (refl, tt)
  insert-IsMap k v ((j, w) ∷ m) h =
      ground (arith, e.same_iff j k, e.same_iff k j, lookup-insert k j v m, insert-IsMap k v m h.1)

  pub remove-IsMap : (k : K) (m : Assoc K V) → IsMap m → IsMap (remove k m)
  unfolding lookup remove
  remove-IsMap k [] h = tt
  remove-IsMap k ((j, w) ∷ m) h =
      ground (arith, e.same_iff j k, lookup-remove k j m, remove-IsMap k m h.1)

  pub length-insert_new :
      (k : K) (v : V) (m : Assoc K V) → lookup k m ≡ none → length (insert k v m) ≡ suc (length m)
  unfolding lookup insert
  length-insert_new k v [] h = refl
  length-insert_new k v ((j, w) ∷ m) h = ground (arith, length-insert_new k v m)

  pub length-insert_old :
      (k : K) (v : V) (m : Assoc K V) → lookup k m ≢ none → length (insert k v m) ≡ length m
  unfolding lookup insert
  length-insert_old k v [] h = absurd (h refl)
  length-insert_old k v ((j, w) ∷ m) h = ground (arith, length-insert_old k v m)

  pub remove_absent : (k : K) (m : Assoc K V) → lookup k m ≡ none → remove k m ≡ m
  unfolding lookup remove
  remove_absent k [] h = refl
  remove_absent k ((j, w) ∷ m) h = ground (arith, remove_absent k m)

  pub length-remove_present :
      (k : K) (m : Assoc K V) → IsMap m → lookup k m ≢ none → suc (length (remove k m)) ≡ length m
  unfolding lookup remove
  length-remove_present k [] h p = absurd (p refl)
  length-remove_present k ((j, w) ∷ m) h p =
      ground (arith, e.same_iff j k, remove_absent k m, length-remove_present k m h.1)
