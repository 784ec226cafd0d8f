-- ===== src/Server/Status/Counts.antt =====
-- The sums of the counters of `ServerStatus`.
use caviar_hacker_grid.Base.{ℕ, suc, ◌+◌, [], ◌∷◌, ◌≡◌, refl, arith, some, ◌≤◌}
use caviar_hacker_grid.Base.StdMap.{Order, StdMap, update, IsSorted, lookup}
use caviar_hacker_grid.Base.StdMap.Keys.{int_order, text_order}
use caviar_hacker_grid.Base.StdMap.Laws.{update-IsSorted}
use caviar_hacker_grid.Base.Text.{Bytes}
use caviar_hacker_grid.Server.Status.{Status, count_one, log_incoming_request, new_status}

module _ {ℓ} {K : Type ℓ} ⦃o : Order K⦄ where
  -- All counts together.
  abbrev pub total : StdMap K ℕ → ℕ
  total [] = 0
  total ((k, n) ∷ m) = n + total m

  pub total-update : (k : K) (m : StdMap K ℕ) → total (update count_one k m) ≡ suc (total m)
  unfolding update
  total-update k [] = omega arith
  total-update k ((j, n) ∷ m) = ground (arith, total-update k m)

-- Both maps have their keys in order, and each adds up to the number of requests.
pub record IsConsistent (s : Status) : Type 0 where
  pub urls_sorted : IsSorted s.request_count_by_url
  pub codes_sorted : IsSorted s.response_count_by_code
  pub urls_total : total s.request_count_by_url ≡ s.requests
  pub codes_total : total s.response_count_by_code ≡ s.requests

pub new_status-IsConsistent : IsConsistent new_status
new_status-IsConsistent = record {
  urls_sorted = tt;
  codes_sorted = tt;
  urls_total = refl;
  codes_total = refl;
}

-- Another request keeps both maps in order and their counts adding up to the number of requests.
pub log_incoming_request-IsConsistent :
    (url : Bytes) (code : ℕ) {s : Status}
    → IsConsistent s
    → IsConsistent (log_incoming_request url code s)
unfolding log_incoming_request
log_incoming_request-IsConsistent url code {s} c = record {
  urls_sorted = update-IsSorted count_one url s.request_count_by_url c.urls_sorted;
  codes_sorted = update-IsSorted count_one code s.response_count_by_code c.codes_sorted;
  urls_total = omega (arith, total-update url s.request_count_by_url, c.urls_total);
  codes_total = omega (arith, total-update code s.response_count_by_code, c.codes_total);
}

module _ {ℓ} {K : Type ℓ} ⦃o : Order K⦄ where
  -- No counter is above the number of all counts.
  pub lookup-total : (k : K) (n : ℕ) (m : StdMap K ℕ) → lookup k m ≡ some n → n ≤ total m
  unfolding lookup
  lookup-total k n [] e = cc
  lookup-total k n ((j, i) ∷ m) e = ground (arith, lookup-total k n m)
