-- ===== src/Http/Response.antt =====
-- http/httpResponse.h and http/httpResponse.cc: the response that a handler fills in.
pub mod Laws
pub mod Codes
use caviar_hacker_grid.Base.{ℕ, List, [], ◌∷◌, ◌++◌, Option, none, some, ◌>>=◌}
use caviar_hacker_grid.Base.StdMap.{StdMap, assign, update}
use caviar_hacker_grid.Base.StdMap.Keys.{text_order}
use caviar_hacker_grid.Base.Text.{Bytes, codes}
use caviar_hacker_grid.Http.Decimal.{int_decimal}
use caviar_hacker_grid.Http.Status.{ResponseCode, number, get_default}

-- `status_code_` has no initial value: `none` until `SetStatus`. A handler that forwards a status
-- casts any `unsigned int` to the enumeration, so the code is the 32 bits that are kept.
pub record Response : Type 0 where
  pub reason_phrase : Bytes
  pub status_code : Option ℕ
  pub http_headers : StdMap Bytes Bytes
  pub body : Bytes

-- `new Response`.
abbrev pub new_response : Response
new_response = record { reason_phrase = []; status_code = none; http_headers = []; body = [] }

-- `SetStatus((Response::ResponseCode)code)`.
unfoldable pub set_status_number : ℕ → Response → Response
unfolding get_default
set_status_number code r = record r { reason_phrase = get_default code; status_code = some code }

-- `SetStatus`.
unfoldable pub set_status : ResponseCode → Response → Response
unfolding set_status_number number
set_status code = set_status_number (number code)

-- `AddHeader`: a header that is there is replaced.
unfoldable pub add_header : Bytes → Bytes → Response → Response
unfolding update
add_header name value r = record r { http_headers = assign name value r.http_headers }

-- `SetBody`.
unfoldable pub set_body : Bytes → Response → Response
set_body body r = record r { body = body }

-- `GetStatus` and `GetBody`; the status of a response that has none is an undefined read. The cast to
-- `int` keeps the bits, which `int_order` and `int_decimal` read as an `int`.
abbrev pub get_status : Response → Option ℕ
get_status r = r.status_code

abbrev pub get_body : Response → Bytes
get_body r = r.body

abbrev pub line_break : Bytes
line_break = b'\r' ∷ b'\n' ∷ []

-- The loop over the headers in `ToString`.
unfoldable pub header_lines : List (Bytes × Bytes) → Bytes
header_lines [] = []
header_lines ((name, value) ∷ headers) =
    name ++ (codes ": " ++ (value ++ (line_break ++ header_lines headers)))

unfoldable pub status_line : ℕ → Bytes → Bytes
unfolding int_decimal
status_line code phrase =
    codes "HTTP/1.1" ++ (codes " " ++ (int_decimal code ++ (codes " " ++ (phrase ++ line_break))))

-- `ToString`; `none` where it reads a status code that was never set.
unfoldable pub to_string : Response → Option Bytes
unfolding header_lines status_line
to_string r = do
  code ← r.status_code
  some (status_line code r.reason_phrase ++ (header_lines r.http_headers ++ (line_break ++ r.body)))
