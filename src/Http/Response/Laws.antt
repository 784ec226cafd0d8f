-- ===== src/Http/Response/Laws.antt =====
-- What the setters of a response leave behind.
use caviar_hacker_grid.Base.{some, ◌≡◌, ◌≢◌}
use caviar_hacker_grid.Base.StdMap.{lookup, IsSorted}
use caviar_hacker_grid.Base.StdMap.Keys.{text_order}
use caviar_hacker_grid.Base.StdMap.Laws.{update-IsSorted, lookup-update_self, lookup-update_ne}
use caviar_hacker_grid.Base.Text.{Bytes}
use caviar_hacker_grid.Http.Response.{Response, add_header}

-- After `AddHeader` on headers in order, the header has the value, another header is as it was, and the
-- names are in order.
pub add_header_lem :
    (name value other : Bytes) (r : Response)
    → IsSorted r.http_headers
    → other ≢ name
    → (lookup name (add_header name value r).http_headers ≡ some value)
      × (lookup other (add_header name value r).http_headers ≡ lookup other r.http_headers)
      × IsSorted (add_header name value r).http_headers
unfolding add_header
add_header_lem name value other r s ne = (
  lookup-update_self (λ _. value) name r.http_headers,
  lookup-update_ne (λ _. value) other name r.http_headers ne s,
  update-IsSorted (λ _. value) name r.http_headers s,
)
