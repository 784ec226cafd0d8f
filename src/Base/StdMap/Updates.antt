-- ===== src/Base/StdMap/Updates.antt =====
-- Updates one after the other.
use mathlib.Core.Path.{◌≡◌, ap}
use mathlib.Core.Option.{Option, none, some}
use mathlib.Core.List.{[], ◌∷◌}
use native.Mathlib.Omega.{arith}
use caviar_hacker_grid.Base.StdMap.{Order, StdMap, lookup, update}
use caviar_hacker_grid.Base.StdMap.Laws.{less, same, more, Ordering-cases}

module _ {ℓ κ} {K : Type ℓ} {V : Type κ} ⦃o : Order K⦄ where
  -- Only what the function makes of the entry counts.
  pub update-congr :
      (f g : Option V → V) (k : K) (m : StdMap K V)
      → f (lookup k m) ≡ g (lookup k m)
      → update f k m ≡ update g k m
  unfolding lookup update
  update-congr f g k [] h = ap (λ v. (k, v) ∷ []) h
  update-congr f g k ((j, w) ∷ m) h = elim (Ordering-cases (o.order k j)) [
    | less e ↦ ground (arith, e, h)
    | same e ↦ ground (arith, e, h)
    | more e ↦ ground (arith, e, h, update-congr f g k m)
  ]

  pub update-update :
      (f g : Option V → V) (k : K) (m : StdMap K V)
      → update f k (update g k m) ≡ update (λ v. f (some (g v))) k m
  unfolding update
  update-update f g k [] = ground (arith, o.eq_iff k k)
  update-update f g k ((j, w) ∷ m) =
      ground (arith, o.eq_iff k j, o.eq_iff k k, update-update f g k m)

  -- Updates of two keys can change places, and so can two of one key that change places on its entry.
  pub update_comm :
      (f g : Option V → V) (i k : K) (m : StdMap K V)
      → ((v : Option V) → f (some (g v)) ≡ g (some (f v)))
      → update f i (update g k m) ≡ update g k (update f i m)
  unfolding update
  update_comm f g i k [] h =
      ground (arith, o.eq_iff i k, o.eq_iff k i, o.gt_iff i k, o.gt_iff k i, h none)
  update_comm f g i k ((j, w) ∷ m) h = ground (
    arith,
    o.eq_iff i k,
    o.eq_iff k i,
    o.eq_iff i j,
    o.eq_iff k j,
    o.gt_iff i k,
    o.gt_iff k i,
    o.gt_iff i j,
    o.gt_iff k j,
    o.lt_trans i k j,
    o.lt_trans k i j,
    o.lt_trans i j k,
    o.lt_trans k j i,
    h none,
    h (some w),
    update_comm f g i k m h,
  )
