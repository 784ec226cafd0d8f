-- ===== src/Server/Threads/Alone.antt =====
-- A call of `LogIncomingRequest` that runs alone.
use caviar_hacker_grid.Base.{
  ℕ, zero, suc, true, if◌then◌else◌, arith, [], ◌∷◌, none, some, ◌≡◌, ◌∙◌, refl, ap, inl, inr,
  Option-cases,
}
use caviar_hacker_grid.Base.StdMap.{Order, StdMap, lookup, update, keep, is_new, insert, assign}
use caviar_hacker_grid.Base.StdMap.Keys.{int_order, text_order}
use caviar_hacker_grid.Base.StdMap.Updates.{update-congr}
use caviar_hacker_grid.Base.Text.{Bytes}
use caviar_hacker_grid.Server.Status.{Status, count_one, log_incoming_request}
use caviar_hacker_grid.Server.Status.Tally.{counter}
use caviar_hacker_grid.Server.Threads.{
  at_code, code_there, at_url, url_there, at_requests, returned, next_place, next_status, advance,
}

module _ {ℓ} {K : Type ℓ} ⦃o : Order K⦄ where
  pub insert-none :
      (k : K) (m : StdMap K ℕ) → lookup k m ≡ none → insert k 1 m ≡ update count_one k m
  insert-none k m e = update-congr (keep 1) count_one k m (rw e refl)

  pub insert-some : (k : K) (n : ℕ) (m : StdMap K ℕ) → lookup k m ≡ some n → insert k 1 m ≡ m
  unfolding lookup update
  insert-some k n [] e = cc
  insert-some k n ((j, i) ∷ m) e = ground (arith, o.eq_iff k j, insert-some k n m)

  -- An `insert` that finds the key, and the `++` behind it.
  pub increment-some :
      (k : K) (n : ℕ) (m : StdMap K ℕ)
      → lookup k m ≡ some n
      → assign k (suc (counter k (insert k 1 m))) (insert k 1 m) ≡ update count_one k m
  increment-some k n m e =
      let one = insert-some k n m e in
      let found : counter k (insert k 1 m) ≡ n = ap (counter k) one ∙ rw (counter, e) refl in
      ap (λ i. assign k (suc i) (insert k 1 m)) found
      ∙ ap (assign k (suc n)) one
      ∙ update-congr (λ _. suc n) count_one k m (rw e refl)

module _ (url : Bytes) (code : ℕ) (n : ℕ) (s : Status) where
  pub code_new :
      lookup code s.response_count_by_code ≡ none
      → advance (suc n) url code at_code s
        ≡ advance n url code at_url
            (record s { response_count_by_code = update count_one code s.response_count_by_code })
  unfolding advance next_place next_status
  code_new e =
      let new : is_new code s.response_count_by_code ≡ true = rw (is_new, e) refl in
      ap
        (λ b.
          advance n url code (if b then at_url else code_there)
            (record s { response_count_by_code = insert code 1 s.response_count_by_code }))
        new
      ∙ ap (λ m. advance n url code at_url (record s { response_count_by_code = m }))
          (insert-none code s.response_count_by_code e)

  pub code_old :
      {i : ℕ}
      → lookup code s.response_count_by_code ≡ some i
      → advance (suc (suc (suc n))) url code at_code s
        ≡ advance n url code at_url
            (record s { response_count_by_code = update count_one code s.response_count_by_code })
  unfolding advance next_place next_status
  code_old {i} e =
      rw (advance, next_place, next_status, e)
        (ap (λ m. advance n url code at_url (record s { response_count_by_code = m }))
          (increment-some code i s.response_count_by_code e))

  pub url_new :
      lookup url s.request_count_by_url ≡ none
      → advance (suc n) url code at_url s
        ≡ advance n url code at_requests
            (record s { request_count_by_url = update count_one url s.request_count_by_url })
  unfolding advance next_place next_status
  url_new e =
      let new : is_new url s.request_count_by_url ≡ true = rw (is_new, e) refl in
      ap
        (λ b.
          advance n url code (if b then at_requests else url_there)
            (record s { request_count_by_url = insert url 1 s.request_count_by_url }))
        new
      ∙ ap (λ m. advance n url code at_requests (record s { request_count_by_url = m }))
          (insert-none url s.request_count_by_url e)

  pub url_old :
      {i : ℕ}
      → lookup url s.request_count_by_url ≡ some i
      → advance (suc (suc (suc n))) url code at_url s
        ≡ advance n url code at_requests
            (record s { request_count_by_url = update count_one url s.request_count_by_url })
  unfolding advance next_place next_status
  url_old {i} e =
      rw (advance, next_place, next_status, e)
        (ap (λ m. advance n url code at_requests (record s { request_count_by_url = m }))
          (increment-some url i s.request_count_by_url e))

returned_stays :
    (n : ℕ) (url : Bytes) (code : ℕ) (s : Status) → advance n url code returned s ≡ (returned, s)
unfolding advance next_place next_status
returned_stays zero url code s = refl
returned_stays (suc n) url code s = returned_stays n url code s

log_requests :
    (n : ℕ) (url : Bytes) (code : ℕ) (s : Status)
    → advance (suc (suc n)) url code at_requests s
      ≡ (returned, record s { requests = suc s.requests })
unfolding advance next_place next_status
log_requests n url code s = returned_stays n url code (record s { requests = suc s.requests })

log_urls :
    (n : ℕ) (url : Bytes) (code : ℕ) (s : Status)
    → advance (suc (suc (suc (suc (suc n))))) url code at_url s ≡ (
      returned,
      record s {
        request_count_by_url = update count_one url s.request_count_by_url;
        requests = suc s.requests;
      },
    )
log_urls n url code s = elim (Option-cases (lookup url s.request_count_by_url)) [
  | inl e ↦ url_new url code (suc (suc (suc (suc n)))) s e ∙ log_requests (suc (suc n)) url code _
  | inr (i, e) ↦ url_old url code (suc (suc n)) s e ∙ log_requests n url code _
]

-- A call that runs alone returns within eight steps from its entry, and has done to the counters what
-- `LogIncomingRequest` does as one step.
pub log_alone :
    (url : Bytes) (code : ℕ) (s : Status)
    → advance 8 url code at_code s ≡ (returned, log_incoming_request url code s)
unfolding log_incoming_request
log_alone url code s = elim (Option-cases (lookup code s.response_count_by_code)) [
  | inl e ↦ code_new url code 7 s e ∙ log_urls 2 url code _
  | inr (i, e) ↦ code_old url code 5 s e ∙ log_urls 0 url code _
]
