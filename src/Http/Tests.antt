-- ===== src/Http/Tests.antt =====
-- Requests and responses at concrete inputs.
use caviar_hacker_grid.Base.{[], ◌∷◌, some, ◌≡◌, refl, ◌↔◌, ◌≢◌}
use caviar_hacker_grid.Base.StdMap.Keys.{text_order}
use caviar_hacker_grid.Base.Text.{Bytes, codes}
use caviar_hacker_grid.Http.MutableRequest
use caviar_hacker_grid.Http.MutableRequest.{set_header}
use caviar_hacker_grid.Http.MutableRequest.RoundTrip.{reparsed, parse-to_string}
use caviar_hacker_grid.Http.Request.{Request, new_request, parsed, rejected, thrown, parse}
use caviar_hacker_grid.Http.Request.Exact.{parse_iff}
use caviar_hacker_grid.Http.Request.Sound.{IsReadFrom}
use caviar_hacker_grid.Http.Response
use caviar_hacker_grid.Http.Response.{new_response, set_status, add_header, set_body}
use caviar_hacker_grid.Http.Status.{ok, get_default}
use caviar_hacker_grid.Http.Status.Phrases.{HasCode, get_default_iff}

abbrev raw : Bytes
raw = codes "POST /s/a.txt HTTP/1.1\r\nHost: x:80\r\nAccept: */*\r\n\r\nhi\r\n\r\n"

parse-raw :
    parse raw
    ≡ parsed (record {
      header_fields = (codes "Accept", codes "*/*") ∷ (codes "Host", codes "x:80") ∷ [];
      headers = (codes "Accept", codes "*/*") ∷ (codes "Host", codes "x:80") ∷ [];
      raw_request = raw;
      request_line = codes "POST /s/a.txt HTTP/1.1";
      message_body = codes "hi\r\n\r\n";
      method = codes "POST";
      version = codes "HTTP/1.1";
      request_uri = codes "/s/a.txt";
    })
unfolding parse
parse-raw = refl

parse_rejected : parse (codes "GET /\r\n\r\n") ≡ rejected
unfolding parse
parse_rejected = refl

parse_empty_value : parse (codes "GET / HTTP/1.1\r\nX:\r\n\r\n") ≡ thrown
unfolding parse
parse_empty_value = refl

print_response :
    Response.to_string
      (set_body (codes "hi") (add_header (codes "A") (codes "b") (set_status ok new_response)))
    ≡ some (codes "HTTP/1.1 200 OK\r\nA: b\r\n\r\nhi")
unfolding Response.to_string set_body add_header set_status
print_response = refl

abbrev get : Request
get = record new_request {
  method = codes "GET";
  request_uri = codes "/s";
  version = codes "HTTP/1.1";
  headers = (codes "A", codes "b") ∷ (codes "B", []) ∷ [];
  message_body = codes "hi";
}

parse-to_string_example : parse (MutableRequest.to_string get) ≡ parsed (reparsed get)
parse-to_string_example = parse-to_string get (record {
  method_field = (refl, (refl, (refl, tt)));
  uri_field = (refl, (refl, tt));
  version_field = (refl, (refl, (refl, (refl, (refl, (refl, (refl, (refl, tt))))))));
  method_ne_nil = λ e. cc;
  uri_ne_nil = λ e. cc;
  version_ne_nil = λ e. cc;
  header_fit = (((refl, tt), (refl, tt)), (((refl, tt), tt), tt));
  header_order = (refl, (tt, tt));
})

abbrev short_request : Request
short_request = record new_request {
  header_fields = (codes "A", codes "b") ∷ [];
  headers = (codes "A", codes "b") ∷ [];
  raw_request = codes "GET /s HTTP/1.1\r\nA: b\r\n\r\nhi";
  request_line = codes "GET /s HTTP/1.1";
  message_body = codes "hi";
  method = codes "GET";
  version = codes "HTTP/1.1";
  request_uri = codes "/s";
}

parse-short : parse (codes "GET /s HTTP/1.1\r\nA: b\r\n\r\nhi") ≡ parsed short_request
unfolding parse
parse-short = refl

parse_iff_example :
    (parse (codes "GET /s HTTP/1.1\r\nA: b\r\n\r\nhi") ≡ parsed short_request)
    ↔ IsReadFrom (codes "GET /s HTTP/1.1\r\nA: b\r\n\r\nhi") short_request
parse_iff_example = parse_iff (codes "GET /s HTTP/1.1\r\nA: b\r\n\r\nhi") short_request

get_default_iff_example : get_default 404 ≢ codes "Unassigned" ↔ HasCode 404
get_default_iff_example = get_default_iff 404
