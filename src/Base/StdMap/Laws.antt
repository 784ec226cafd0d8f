-- ===== src/Base/StdMap/Laws.antt =====
-- Lookup after an update, and the order of the keys.
use Prim.Native.Nat.{Ordering}
use mathlib.Core.Path.{◌≡◌, refl}
use mathlib.Core.Logic.{◌≢◌}
use mathlib.Core.Option.{Option, some}
use mathlib.Core.List.{[], ◌∷◌, ◌++◌}
use native.Mathlib.Omega.{arith}
use caviar_hacker_grid.Base.StdMap.{Order, StdMap, lookup, update, IsBelow, IsSorted, none}

pub data Compared (c : Ordering) : Type 0 where
  less : c ≡ Ordering.lt → Compared c
  same : c ≡ Ordering.eq → Compared c
  more : c ≡ Ordering.gt → Compared c

pub Ordering-cases : (c : Ordering) → Compared c
Ordering-cases Ordering.lt = less refl
Ordering-cases Ordering.eq = same refl
Ordering-cases Ordering.gt = more refl

module _ {ℓ κ} {K : Type ℓ} {V : Type κ} ⦃o : Order K⦄ where
  IsBelow-update :
      (f : Option V → V) (i k : K) (m : StdMap K V)
      → o.order i k ≡ Ordering.lt
      → IsBelow i m
      → IsBelow i (update f k m)
  unfolding update
  IsBelow-update f i k [] h b = h
  IsBelow-update f i k ((j, w) ∷ m) h b = ground arith

  -- An update keeps the keys in order.
  pub update-IsSorted :
      (f : Option V → V) (k : K) (m : StdMap K V) → IsSorted m → IsSorted (update f k m)
  unfolding update
  update-IsSorted f k [] s = (tt, tt)
  update-IsSorted f k ((j, w) ∷ m) (b, s) = elim (Ordering-cases (o.order k j)) [
    | less e ↦ ground (arith)
    | same e ↦ rw (update, e, (o.eq_iff k j).0 e) (b, s)
    | more e ↦
        rw (update, e) (IsBelow-update f j k m ((o.gt_iff k j).0 e) b, update-IsSorted f k m s)
  ]

  pub lookup-update_self :
      (f : Option V → V) (k : K) (m : StdMap K V) → lookup k (update f k m) ≡ some (f (lookup k m))
  unfolding lookup update
  lookup-update_self f k [] = ground (arith, o.eq_iff k k)
  lookup-update_self f k ((j, w) ∷ m) =
      ground (arith, o.eq_iff k j, o.eq_iff k k, lookup-update_self f k m)

  pub lookup-update_ne :
      (f : Option V → V) (i k : K) (m : StdMap K V)
      → i ≢ k
      → IsSorted m
      → lookup i (update f k m) ≡ lookup i m
  unfolding lookup update
  lookup-update_ne f i k [] h s = ground (arith, o.eq_iff i k)
  lookup-update_ne f i k ((j, w) ∷ m) h (b, s) = ground (
    arith,
    o.eq_iff i k,
    o.eq_iff i j,
    o.eq_iff k j,
    o.gt_iff k i,
    o.gt_iff i k,
    o.lt_trans i k j,
    o.gt_iff i j,
    o.gt_iff k j,
    lookup-update_ne f i k m h s,
  )

module _ {ℓ κ} {K : Type ℓ} {V : Type κ} ⦃o : Order K⦄ where
  -- A key in front of a sorted list of entries is less than all that come later.
  below_later :
      (j k : K) (v : V) (m m' : StdMap K V)
      → IsBelow j (m ++ (k, v) ∷ m')
      → IsSorted (m ++ (k, v) ∷ m')
      → o.order j k ≡ Ordering.lt
  below_later j k v [] m' b s = b
  below_later j k v ((i, w) ∷ m) m' b (c, s) = o.lt_trans j i k b (below_later i k v m m' c s)

  -- A key that is greater than all others is added behind them.
  pub update_last :
      (f : Option V → V) (k : K) (v : V) (m m' : StdMap K V)
      → IsSorted (m ++ (k, v) ∷ m')
      → update f k m ≡ m ++ (k, f none) ∷ []
  unfolding update
  update_last f k v [] m' s = refl
  update_last f k v ((j, w) ∷ m) m' (b, s) =
      ground (arith, o.gt_iff k j, below_later j k v m m' b s, update_last f k v m m' s)
