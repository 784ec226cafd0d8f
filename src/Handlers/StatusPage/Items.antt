-- ===== src/Handlers/StatusPage/Items.antt =====
-- What stands on the status page.
use caviar_hacker_grid.Base.{
  ℕ, [], ◌∷◌, ◌++◌, some, ◌≡◌, ◌≢◌, ◌∙◌, refl, sym, ap, arith, append_assoc, inl, inr, Option-cases,
  subst,
}
use caviar_hacker_grid.Base.StdMap.{Order, StdMap, lookup}
use caviar_hacker_grid.Base.StdMap.Keys.{int_order, text_order}
use caviar_hacker_grid.Base.StdMap.Laws.{less, same, more, Ordering-cases}
use caviar_hacker_grid.Base.Text.{Bytes, codes}
use caviar_hacker_grid.Handlers.StatusPage.{
  url_items, code_items, handler_items, page_head, status_to_html,
}
use caviar_hacker_grid.Http.Decimal.{to_decimal, int_decimal}
use caviar_hacker_grid.Server.Status as ServerStatus
use caviar_hacker_grid.Server.Status.Tally.{counter}

-- A text stands in another.
abbrev pub Contains : Bytes → Bytes → Type 0
Contains page text = (before after : Bytes) × (page ≡ before ++ (text ++ after))

Contains-front : (a b text : Bytes) → Contains a text → Contains (a ++ b) text
Contains-front a b text (before, after, e) =
    (before, after ++ b, ap (λ s. s ++ b) e ∙ simp append_assoc)

Contains-skip : (a b text : Bytes) → Contains b text → Contains (a ++ b) text
Contains-skip a b text (before, after, e) =
    (a ++ before, after, ap (λ s. a ++ s) e ∙ sym (append_assoc a before (text ++ after)))

-- The lines of a URI and of a status code.
abbrev pub url_item : Bytes → ℕ → Bytes
url_item url count = codes "<li>" ++ (url ++ (codes " : " ++ (to_decimal count ++ codes "</li>\n")))

abbrev pub code_item : ℕ → ℕ → Bytes
code_item code count =
    codes "<li>" ++ (int_decimal code ++ (codes " : " ++ (to_decimal count ++ codes "</li>\n")))

url_items-cons :
    (url : Bytes) (n : ℕ) (m : StdMap Bytes ℕ)
    → url_items ((url, n) ∷ m) ≡ url_item url n ++ url_items m
unfolding url_items
url_items-cons url n m = simp append_assoc

code_items-cons :
    (code n : ℕ) (m : StdMap ℕ ℕ) → code_items ((code, n) ∷ m) ≡ code_item code n ++ code_items m
unfolding code_items
code_items-cons code n m = simp append_assoc

url_items-Contains :
    (url : Bytes) (n : ℕ) (m : StdMap Bytes ℕ)
    → lookup url m ≡ some n
    → Contains (url_items m) (url_item url n)
unfolding lookup
url_items-Contains url n [] e = cc
url_items-Contains url n ((k, i) ∷ m) e =
    subst (λ s. Contains s (url_item url n)) (sym (url_items-cons k i m))
      (elim (Ordering-cases (text_order.order url k)) [
        | less h ↦ absurd (ground (arith, h, e))
        | same h ↦
            let key : url ≡ k = (text_order.eq_iff url k).0 h in
            let value : i ≡ n = ground (arith, h, e) in
            (
              [],
              url_items m,
              ap (λ u. url_item u i ++ url_items m) (sym key)
                  ∙ ap (λ j. url_item url j ++ url_items m) value,
            )
        | more h ↦
            Contains-skip (url_item k i) (url_items m) (url_item url n)
              (url_items-Contains url n m (ground (arith, h, e)))
      ])

code_items-Contains :
    (code n : ℕ) (m : StdMap ℕ ℕ)
    → lookup code m ≡ some n
    → Contains (code_items m) (code_item code n)
unfolding lookup
code_items-Contains code n [] e = cc
code_items-Contains code n ((k, i) ∷ m) e =
    subst (λ s. Contains s (code_item code n)) (sym (code_items-cons k i m))
      (elim (Ordering-cases (int_order.order code k)) [
        | less h ↦ absurd (ground (arith, h, e))
        | same h ↦
            let key : code ≡ k = (int_order.eq_iff code k).0 h in
            let value : i ≡ n = ground (arith, h, e) in
            (
              [],
              code_items m,
              ap (λ u. code_item u i ++ code_items m) (sym key)
                  ∙ ap (λ j. code_item code j ++ code_items m) value,
            )
        | more h ↦
            Contains-skip (code_item k i) (code_items m) (code_item code n)
              (code_items-Contains code n m (ground (arith, h, e)))
      ])

module _ {ℓ} {K : Type ℓ} ⦃o : Order K⦄ where
  lookup-counter : (k : K) (m : StdMap K ℕ) → counter k m ≢ 0 → lookup k m ≡ some (counter k m)
  lookup-counter k m h = elim (Option-cases (lookup k m)) [
    | inl e ↦ absurd (h (rw (counter, e) refl))
    | inr (n, e) ↦ e ∙ ap some (sym (rw (counter, e) refl))
  ]

abbrev pub total_line : ℕ → Bytes
total_line n = codes "<p> Total Requests Received: " ++ (to_decimal n ++ codes "</p>")

Contains-between : (a b c text : Bytes) → Contains b text → Contains (a ++ (b ++ c)) text
Contains-between a b c text h = Contains-skip a (b ++ c) text (Contains-front b c text h)

-- The page around its total, and around the lines of the URIs and of the codes.
module _ (s : ServerStatus.Status) where
  abbrev behind_codes : Bytes
  behind_codes =
      codes "</ul></p>\n<h2>Handlers</h2>\n<p><ul>\n"
      ++ (handler_items s.request_handlers
          ++ (codes "</ul></p>\n<p> Default handler: "
              ++ (s.default_handler ++ codes "</p></body>\n</html>\n")))

  abbrev behind_urls : Bytes
  behind_urls =
      codes "</ul></p>\n<p> Requests broken down by Response Code: <ul>\n"
      ++ (code_items s.response_count_by_code ++ behind_codes)

  abbrev behind_total : Bytes
  behind_total =
      codes "<p> Requests broken down by URL:<ul>\n"
      ++ (url_items s.request_count_by_url ++ behind_urls)

  status_to_html-lines : status_to_html s ≡ page_head ++ (total_line s.requests ++ behind_total)
  unfolding status_to_html
  status_to_html-lines =
      ap (λ t. page_head ++ (codes "<p> Total Requests Received: " ++ t))
        (sym (append_assoc (to_decimal s.requests) (codes "</p>") behind_total))

  -- The page has the number of requests, and a line for each URI and each status code with a counter.
  pub status_to_html-total : Contains (status_to_html s) (total_line s.requests)
  status_to_html-total = (page_head, behind_total, status_to_html-lines)

  behind_total-Contains :
      (text : Bytes) → Contains behind_total text → Contains (status_to_html s) text
  behind_total-Contains text h =
      subst (λ t. Contains t text) (sym status_to_html-lines)
        (Contains-skip page_head (total_line s.requests ++ behind_total) text
          (Contains-skip (total_line s.requests) behind_total text h))

  pub status_to_html-url :
      (url : Bytes)
      → counter url s.request_count_by_url ≢ 0
      → Contains (status_to_html s) (url_item url (counter url s.request_count_by_url))
  status_to_html-url url h =
      let m = s.request_count_by_url in
      let item = url_item url (counter url m) in
      behind_total-Contains item (
        Contains-between (codes "<p> Requests broken down by URL:<ul>\n") (url_items m) behind_urls
          item (url_items-Contains url (counter url m) m (lookup-counter url m h)))

  pub status_to_html-code :
      (code : ℕ)
      → counter code s.response_count_by_code ≢ 0
      → Contains (status_to_html s) (code_item code (counter code s.response_count_by_code))
  status_to_html-code code h =
      let m = s.response_count_by_code in
      let item = code_item code (counter code m) in
      behind_total-Contains item (
        Contains-skip (codes "<p> Requests broken down by URL:<ul>\n")
          (url_items s.request_count_by_url ++ behind_urls) item
          (Contains-skip (url_items s.request_count_by_url) behind_urls item (
            Contains-between (codes "</ul></p>\n<p> Requests broken down by Response Code: <ul>\n")
              (code_items m) behind_codes item
              (code_items-Contains code (counter code m) m (lookup-counter code m h)))))
