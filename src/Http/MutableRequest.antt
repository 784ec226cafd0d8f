-- ===== src/Http/MutableRequest.antt =====
-- http/httpMutableRequest.h and http/httpMutableRequest.cc: a request that a handler may change.
-- The constructor copies the request, so a MutableRequest is a Request here.
pub mod RoundTrip
use caviar_hacker_grid.Base.{List, [], ◌∷◌, ◌++◌, if◌then◌else◌}
use caviar_hacker_grid.Base.Text.{Bytes, codes, equal}
use caviar_hacker_grid.Http.Request.{Request, crlf}
use caviar_hacker_grid.Http.Response.{header_lines}

-- `SetURI`.
unfoldable pub set_uri : Bytes → Request → Request
set_uri uri r = record r { request_uri = uri }

-- The loop of `SetHeader`: the first header of the name is changed, or one is added behind the last.
unfoldable pub set_in : Bytes → Bytes → List (Bytes × Bytes) → List (Bytes × Bytes)
unfolding equal
set_in name value [] = (name, value) ∷ []
set_in name value ((n, v) ∷ headers) =
    if equal n name then (n, value) ∷ headers else (n, v) ∷ set_in name value headers

-- `SetHeader`.
unfoldable pub set_header : Bytes → Bytes → Request → Request
unfolding set_in
set_header name value r = record r { headers = set_in name value r.headers }

-- `ToString`. Its loop over the headers writes what that of a response does.
unfoldable pub to_string : Request → Bytes
unfolding header_lines
to_string r =
    r.method
    ++ (codes " "
        ++ (r.request_uri
            ++ (codes " "
                ++ (r.version ++ (crlf ++ (header_lines r.headers ++ (crlf ++ r.message_body)))))))
