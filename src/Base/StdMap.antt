-- ===== src/Base/StdMap.antt =====
-- std::map as the list of its entries in the order of their keys: the order in which the program's
-- loops visit them. The order of the keys is an instance.
pub mod Keys
pub mod Laws
pub mod Updates
use Prim.Native.Nat.{ℕ, suc, Ordering}
use mathlib.Core.Path.{◌≡◌}
use mathlib.Core.Logic.{◌↔◌}
use mathlib.Core.Bool.{Bool, true, false}
use mathlib.Core.Option.{Option, none, some}
use mathlib.Core.List.{List, [], ◌∷◌}

-- `std::less` on the keys, as a three-way comparison.
pub record Order {ℓ} (K : Type ℓ) : Type ℓ where
  pub order : K → K → Ordering
  pub eq_iff : (a b : K) → (order a b ≡ Ordering.eq) ↔ (a ≡ b)
  pub lt_trans :
      (a b c : K) → order a b ≡ Ordering.lt → order b c ≡ Ordering.lt → order a c ≡ Ordering.lt
  pub gt_iff : (a b : K) → (order a b ≡ Ordering.gt) ↔ (order b a ≡ Ordering.lt)

abbrev pub StdMap {ℓ κ} : Type ℓ → Type κ → Type (ℓ ⊔ κ)
StdMap K V = List (K × V)

abbrev pub keep {κ} : {V : Type κ} → V → Option V → V
keep v none = v
keep v (some w) = w

module _ {ℓ κ} {K : Type ℓ} {V : Type κ} ⦃o : Order K⦄ where
  -- `m.find(k)`; `none` is `m.end()`.
  unfoldable pub lookup : K → StdMap K V → Option V
  lookup k [] = none
  lookup k ((j, w) ∷ m) = elim (o.order k j) [
    | Ordering.lt ↦ none
    | Ordering.eq ↦ some w
    | Ordering.gt ↦ lookup k m
  ]

  -- The entry of the key becomes `f` of what it was, at the place where the key belongs.
  unfoldable pub update : (Option V → V) → K → StdMap K V → StdMap K V
  update f k [] = (k, f none) ∷ []
  update f k ((j, w) ∷ m) = elim (o.order k j) [
    | Ordering.lt ↦ (k, f none) ∷ (j, w) ∷ m
    | Ordering.eq ↦ (k, f (some w)) ∷ m
    | Ordering.gt ↦ (j, w) ∷ update f k m
  ]

  -- `m[k] = v`.
  abbrev pub assign : K → V → StdMap K V → StdMap K V
  assign k v = update (λ _. v) k

  -- The map after `m.insert({k, v})`, which keeps an entry that is there.
  abbrev pub insert : K → V → StdMap K V → StdMap K V
  insert k v = update (keep v) k

  -- `m.insert({k, v}).second`: whether the key was new.
  abbrev pub is_new : K → StdMap K V → Bool
  is_new k m = elim (lookup k m) [ none ↦ true | some _ ↦ false ]

  -- The keys ascend.
  abbrev pub IsBelow : K → StdMap K V → Type 0
  IsBelow k [] = Unit
  IsBelow k ((j, _) ∷ m) = (o.order k j ≡ Ordering.lt)

  abbrev pub IsSorted : StdMap K V → Type 0
  IsSorted [] = Unit
  IsSorted ((k, _) ∷ m) = IsBelow k m × IsSorted m
