-- ===== src/Server/Status/Tally.antt =====
-- `ServerStatus` after a list of requests: each counter is the number of times that its key occurs.
use caviar_hacker_grid.Base.{
  ℕ, ◌+◌, Bool, true, false, List, [], ◌∷◌, Option, none, some, ◌≡◌, arith, map, length, Ordering,
  Bool-cases, inl, inr, ◌≢◌,
}
use caviar_hacker_grid.Base.StdMap.{Order, StdMap, update, lookup, IsSorted}
use caviar_hacker_grid.Base.StdMap.Keys.{int_order, text_order}
use caviar_hacker_grid.Base.StdMap.Laws.{update-IsSorted, lookup-update_self, lookup-update_ne}
use caviar_hacker_grid.Base.Text.{Bytes}
use caviar_hacker_grid.Server.Status.{Status, count_one, log_incoming_request}

-- The URI and the status code of a request that is logged.
abbrev pub Entry : Type 0
Entry = Bytes × ℕ

-- `LogIncomingRequest` for each request, the first one first.
unfoldable pub log_all : List Entry → Status → Status
log_all [] s = s
log_all ((url, code) ∷ entries) s = log_all entries (log_incoming_request url code s)

module _ {ℓ} {K : Type ℓ} ⦃o : Order K⦄ where
  abbrev pub is_key : K → K → Bool
  is_key i k = elim (o.order i k) [ Ordering.eq ↦ true | _ ↦ false ]

  abbrev pub one_if_key : K → K → ℕ
  one_if_key i k = elim (is_key i k) [ true ↦ 1 | false ↦ 0 ]

  -- How often a key stands in a list.
  unfoldable pub occurrences : K → List K → ℕ
  occurrences i [] = 0
  occurrences i (k ∷ ks) = one_if_key i k + occurrences i ks

  -- The counter of a key, 0 where there is none.
  abbrev pub counter : K → StdMap K ℕ → ℕ
  counter k m = elim (lookup k m) [ none ↦ 0 | some n ↦ n ]

  pub counter-update :
      (f : Option ℕ → ℕ) (i k : K) (m : StdMap K ℕ)
      → IsSorted m
      → counter i (update f k m) ≡ elim (is_key i k) [ true ↦ f (lookup i m) | false ↦ counter i m ]
  counter-update f i k m s = elim (Bool-cases (is_key i k)) [
    | inl e ↦
        let same : i ≡ k = ground (arith, o.eq_iff i k, e) in
        ground (arith, e, same, lookup-update_self f k m)
    | inr e ↦
        let ne : i ≢ k = λ q. ground (arith, o.eq_iff i k, e, q) in
        ground (arith, e, lookup-update_ne f i k m ne s)
  ]

  pub counter-count_one :
      (i k : K) (m : StdMap K ℕ)
      → IsSorted m
      → counter i (update count_one k m) ≡ counter i m + one_if_key i k
  counter-count_one i k m s = ground (arith, counter-update count_one i k m s)

abbrev pub urls : List Entry → List Bytes
urls = map (λ entry. entry.0)

abbrev pub codes_of : List Entry → List ℕ
codes_of = map (λ entry. entry.1)

-- The counters are those of another status and the occurrences in a list of requests.
pub record IsTally (first : Status) (entries : List Entry) (s : Status) : Type 0 where
  pub total : s.requests ≡ first.requests + length entries
  pub by_url :
      (url : Bytes)
      → counter url s.request_count_by_url
        ≡ counter url first.request_count_by_url + occurrences url (urls entries)
  pub by_code :
      (code : ℕ)
      → counter code s.response_count_by_code
        ≡ counter code first.response_count_by_code + occurrences code (codes_of entries)

pub log_all-IsTally :
    (entries : List Entry) (s : Status)
    → IsSorted s.request_count_by_url
    → IsSorted s.response_count_by_code
    → IsTally s entries (log_all entries s)
unfolding log_all occurrences log_incoming_request
log_all-IsTally [] s u c = record {
  total = omega arith;
  by_url = λ url. omega arith;
  by_code = λ code. omega arith;
}
log_all-IsTally ((url, code) ∷ entries) s u c =
    let rest =
      log_all-IsTally entries (log_incoming_request url code s)
        (update-IsSorted count_one url s.request_count_by_url u)
        (update-IsSorted count_one code s.response_count_by_code c) in
    record {
      total = omega (arith, rest.total);
      by_url = λ v. omega (arith, rest.by_url v, counter-count_one v url s.request_count_by_url u);
      by_code =
          λ v. omega (arith, rest.by_code v, counter-count_one v code s.response_count_by_code c);
    }
