-- ===== src/Http/MutableRequest/RoundTrip.antt =====
-- `Request::Parse` on what `MutableRequest::ToString` prints, and the headers after `SetHeader`.
use caviar_hacker_grid.Base.{
  List, [], ◌∷◌, Option, none, some, ◌≡◌, ◌≢◌, ◌∙◌, refl, ap, sym, arith, append_assoc, All,
  if◌then◌else◌,
}
use caviar_hacker_grid.Base.StdMap.{IsSorted}
use caviar_hacker_grid.Base.StdMap.Keys.{text_order}
use caviar_hacker_grid.Base.Text.{Bytes, None, equal, equal_iff}
use caviar_hacker_grid.Http.MutableRequest.{to_string, set_in, set_header}
use caviar_hacker_grid.Http.Request.{Request, parsed, parse, new_request}
use caviar_hacker_grid.Http.Request.Blocks.{
  blocks, process_request_line-blocks, process_message_body-blocks, process_headers-blocks,
  request_line-None,
}
use caviar_hacker_grid.Http.Request.Lines.{ends_field, is_cr, request_line}
use caviar_hacker_grid.Http.Request.Serial.{IsHeader}

-- A request whose text can be read back: the fields of the request line are not empty and hold no
-- space, CR or NUL; header names hold no colon or CR, values no CR; and the headers stand in the
-- order of their names, each name once.
pub record IsPrintable (r : Request) : Type 0 where
  pub method_field : None ends_field r.method
  pub uri_field : None ends_field r.request_uri
  pub version_field : None ends_field r.version
  pub method_ne_nil : r.method ≢ []
  pub uri_ne_nil : r.request_uri ≢ []
  pub version_ne_nil : r.version ≢ []
  pub header_fit : All IsHeader r.headers
  pub header_order : IsSorted r.headers

to_string-blocks :
    (r : Request)
    → to_string r ≡ blocks (request_line r.method r.request_uri r.version) r.headers r.message_body
unfolding to_string
to_string-blocks r = simp append_assoc

-- What the parser makes of the text.
abbrev pub reparsed : Request → Request
reparsed r = record {
  header_fields = r.headers;
  headers = r.headers;
  raw_request = to_string r;
  request_line = request_line r.method r.request_uri r.version;
  message_body = r.message_body;
  method = r.method;
  version = r.version;
  request_uri = r.request_uri;
}

parse-blocks :
    (r : Request)
    → IsPrintable r
    → parse (blocks (request_line r.method r.request_uri r.version) r.headers r.message_body)
      ≡ parsed (record (reparsed r) {
        raw_request =
            blocks (request_line r.method r.request_uri r.version) r.headers r.message_body;
      })
unfolding parse
parse-blocks r p =
    let first = request_line r.method r.request_uri r.version in
    let one_line =
      request_line-None is_cr r.method r.request_uri r.version refl (λ c h. ground arith)
        p.method_field p.uri_field p.version_field in
    let r₁ = record new_request {
      request_line = first;
      method = r.method;
      request_uri = r.request_uri;
      version = r.version;
    } in
    let r₂ = record r₁ { message_body = r.message_body } in
    rw (
      parse,
      process_request_line-blocks r.method r.request_uri r.version r.headers r.message_body
          new_request p.method_field p.uri_field p.version_field p.method_ne_nil p.uri_ne_nil
          p.version_ne_nil,
      process_message_body-blocks first r.headers r.message_body r₁ one_line p.header_fit,
      process_headers-blocks first r.headers r.message_body r₂ one_line p.header_fit p.header_order,
    )

-- Parsing the text of a printable request (fields of the request line that are not empty and hold no
-- space, CR or NUL, header names with no colon or CR, values with no CR, headers in the order of their
-- names) gives back its method, URI, version, headers and body.
pub parse-to_string : (r : Request) → IsPrintable r → parse (to_string r) ≡ parsed (reparsed r)
parse-to_string r p =
    ap parse (to_string-blocks r)
    ∙ parse-blocks r p
    ∙ ap (λ t. parsed (record (reparsed r) { raw_request = t })) (sym (to_string-blocks r))

-- The first header of a name.
abbrev pub first_value : Bytes → List (Bytes × Bytes) → Option Bytes
first_value name [] = none
first_value name ((n, v) ∷ hs) = if equal n name then some v else first_value name hs

-- `SetHeader` sets the first header of its name and leaves the others.
pub set_header_lem :
    (name value other : Bytes) (r : Request)
    → first_value other (set_header name value r).headers
      ≡ (if equal name other then some value else first_value other r.headers)
unfolding set_header
set_header_lem name value other r = go r.headers
  where
    go :
        (hs : List (Bytes × Bytes))
        → first_value other (set_in name value hs)
          ≡ (if equal name other then some value else first_value other hs)
    go [] = refl
    go ((n, v) ∷ hs) =
        ground (arith, equal_iff n name, equal_iff n other, equal_iff name other, go hs)
