-- ===== src/Handlers/Tests/Replies.antt =====
-- The theorems on replies to ProxyHandler at replies that come in several chunks.
use caviar_hacker_grid.Base.{
  Bool, not, ◌&&◌, ◌≤◌, true, List, [], ◌∷◌, ◌++◌, some, ◌≡◌, refl, arith, length, ℕ,
}
use caviar_hacker_grid.Base.Run.{done, throws}
use caviar_hacker_grid.Base.Text.{Bytes, codes, None, equal}
use caviar_hacker_grid.Handlers.{ok}
use caviar_hacker_grid.Handlers.Proxy.{trim}
use caviar_hacker_grid.Handlers.Proxy.Exchange.{Answer, read_reply, Reply, handle_proxy}
use caviar_hacker_grid.Handlers.Proxy.Exchange.Headers.{is_lf, followed, IsReplyHeader}
use caviar_hacker_grid.Handlers.Proxy.Exchange.Replies.{read_reply_lem, server_line}
use caviar_hacker_grid.Handlers.Proxy.Exchange.RoundTrip.{read_reply-to_string}
use caviar_hacker_grid.Handlers.Proxy.Sockets.{buf_size, joined}
use caviar_hacker_grid.Handlers.Proxy.Exchange.Limit.{IsRedirect, Added, handle_proxy_redirects}
use caviar_hacker_grid.Base.StdMap.{StdMap}
use caviar_hacker_grid.Base.StdMap.Keys.{text_order}
use caviar_hacker_grid.Handlers.Proxy.Exchange.{Network}
use caviar_hacker_grid.Handlers.Tests.{proxy, request}
use caviar_hacker_grid.Http.Decimal.{to_decimal}
use caviar_hacker_grid.Http.Request.Lines.{is_cr}
use caviar_hacker_grid.Http.Request.Serial.{is_name_end, line}
use caviar_hacker_grid.Http.Response.{
  set_status, Response, new_response, set_status_number, header_lines, status_line, to_string,
}
use caviar_hacker_grid.Http.Status.{not_found, get_default}
use caviar_hacker_grid.Http.Request.{crlf}

abbrev redirect : Bytes → Response → Answer
redirect location r = throws

abbrev chunks : List Bytes
chunks = codes "HTTP/1.1 200 O" ∷ codes "K\r" ∷ codes "\nA: b\r\n\r" ∷ codes "\nhi" ∷ codes "!" ∷ []

abbrev headers : List (Bytes × Bytes)
headers = (codes "A", codes "b") ∷ []

abbrev response : Response
response = record {
  reason_phrase = codes "OK";
  status_code = some 200;
  http_headers = headers;
  body = codes "hi!";
}

head_fits : length (status_line 200 (codes "OK") ++ (header_lines headers ++ crlf)) ≤ buf_size
unfolding status_line header_lines
head_fits = omega arith

server_fits : length (server_line 200 (codes "OK") ++ (header_lines headers ++ crlf)) ≤ buf_size
unfolding to_decimal header_lines
server_fits = omega arith

trimmed : trim (codes "b") ≡ codes "b"
unfolding trim
trimmed = refl

text_joined :
    joined chunks ≡ server_line 200 (codes "OK") ++ (header_lines headers ++ (crlf ++ codes "hi!"))
unfolding to_decimal header_lines
text_joined = refl

text_printed : to_string response ≡ some (joined chunks)
unfolding to_string
text_printed = refl

read_reply_lem_example :
    read_reply redirect (record { chunks = chunks; ended = true }) new_response
    ≡ followed redirect 200 (codes "hi!") headers (set_status_number 200 new_response)
read_reply_lem_example =
    read_reply_lem redirect 200 (codes "OK") headers (codes "hi!") chunks new_response (omega arith)
      (refl, (refl, tt)) ((((refl, tt), (refl, tt)), (refl, (refl, (refl, (refl, tt))))), tt)
      server_fits (tt, (tt, (tt, (tt, (tt, tt))))) text_joined

read_reply-to_string_example :
    read_reply redirect (record { chunks = chunks; ended = true }) new_response
    ≡ done (ok, record response { reason_phrase = get_default 200 })
read_reply-to_string_example =
    read_reply-to_string redirect response 200 chunks refl (omega arith) (λ e. ground arith)
      (refl, (refl, tt)) ((((refl, tt), (refl, tt)), (refl, (refl, (refl, (refl, tt))))), tt)
      (trimmed, tt) (tt, tt) head_fits (tt, (tt, (tt, (tt, (tt, tt))))) text_printed

abbrev free_of : (ℕ → Bool) → Bytes → Bool
free_of p [] = true
free_of p (c ∷ s) = not (p c) && free_of p s

None-free_of : (p : ℕ → Bool) (s : Bytes) → free_of p s ≡ true → None p s
None-free_of p [] e = tt
None-free_of p (c ∷ s) e = ground (arith, None-free_of p s)

abbrev only_server : Bytes → Bool
only_server name = equal name (codes "Server")

abbrev served_reply : Reply
served_reply = record {
  chunks =
      codes "HTTP/1.1 302 Found\r" ∷ codes "\nServer: s\r\nLocation: http://h/p/a\r\n\r\n" ∷ [];
  ended = true;
}

abbrev two_headers : List (Bytes × Bytes)
two_headers = (codes "Server", codes "s") ∷ (codes "Location", codes "http://h/p/a") ∷ []

free_of-IsReplyHeader :
    (h : Bytes × Bytes)
    → free_of is_name_end h.0 ≡ true
    → free_of is_cr h.1 ≡ true
    → free_of is_lf (line h) ≡ true
    → IsReplyHeader h
free_of-IsReplyHeader (name, value) n v l = (
  (None-free_of is_name_end name n, None-free_of is_cr value v),
  None-free_of is_lf (line (name, value)) l,
)

served-IsRedirect : IsRedirect only_server served_reply
unfolding to_decimal header_lines equal
served-IsRedirect = record {
  phrase = codes "Found";
  before = (codes "Server", codes "s") ∷ [];
  location = codes "http://h/p/a";
  others = [];
  body = [];
  one_line = None-free_of is_cr (codes "Found") refl;
  no_location = ((refl, refl), tt);
  headers = (
    free_of-IsReplyHeader (codes "Server", codes "s") refl refl refl,
    (free_of-IsReplyHeader (codes "Location", codes "http://h/p/a") refl refl refl, tt),
  );
  fits = omega arith;
  bytes = (tt, (tt, tt));
  text = refl;
  ended = refl;
}

abbrev served : Network
served host port text = some served_reply

handle_proxy_redirects_example :
    (n : StdMap Bytes Bytes) × (handle_proxy served proxy request new_response
      ≡ done (ok, set_status not_found (record new_response { http_headers = n })))
    × Added only_server [] n
handle_proxy_redirects_example =
    handle_proxy_redirects served proxy only_server
      (λ host port text. (served_reply, refl, served-IsRedirect)) request new_response
