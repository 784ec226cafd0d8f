-- ===== src/Handlers/Tests.antt =====
-- The handlers' theorems at concrete requests, files and replies.
mod Replies
mod Downloads
use caviar_hacker_grid.Base.{
  true, false, [], ◌∷◌, ◌++◌, none, some, ◌≡◌, ◌≤◌, refl, length, take, if◌then◌else◌, arith,
}
use caviar_hacker_grid.Base.Text.{Bytes, codes, equal, c_str, starts_with}
use caviar_hacker_grid.Handlers.{
  ok, file_not_found, bad_request, echo_handler, not_found_handler, create_by_name, static_handler,
}
use caviar_hacker_grid.Handlers.Cloud.{generate_name}
use caviar_hacker_grid.Handlers.Cloud.Names.{generate_name_ne}
use caviar_hacker_grid.Handlers.Files.{FileSystem, handle_static, handle_markdown}
use caviar_hacker_grid.Handlers.Files.Answers.{Carries, static_type, markdown_type, markdown_body}
use caviar_hacker_grid.Handlers.Files.Serving.{IsFileAnswer, handle_static_lem, handle_markdown_lem}
use caviar_hacker_grid.Handlers.Proxy.{Proxy, extract_non_proxy_uri, parse_redirect_location}
use caviar_hacker_grid.Handlers.Proxy.Exchange.{Network}
use caviar_hacker_grid.Handlers.Proxy.Locations.{parse_redirect_location_lem}
use caviar_hacker_grid.Handlers.Table.{HandlerMap, find_longest_handler_key}
use caviar_hacker_grid.Handlers.Table.Longest.{IsPrefixIn, here, find_longest_handler_key_lem}
use caviar_hacker_grid.Http.Request.{Request, new_request}
use caviar_hacker_grid.Http.Response.{new_response}

-- One file, `/w/a.md`.
abbrev files : FileSystem
files path = if equal path (codes "/w/a.md") then some (codes "# a") else none

found : files (c_str (codes "/w" ++ codes "/a.md")) ≡ some (codes "# a")
unfolding c_str equal
found = refl

handle_static_lem_example :
    IsFileAnswer files
      (codes "/s")
      (codes "/w")
      new_response
      (λ path text. text)
      static_type
      (codes "/s/a.md")
      (handle_static files (codes "/s") (codes "/w") (codes "/s/a.md") new_response)
handle_static_lem_example =
    handle_static_lem files (codes "/s") (codes "/w") new_response (codes "/s/a.md")

abbrev shout : Bytes → Bytes
shout text = codes "<h1>" ++ text

handle_markdown_lem_example :
    IsFileAnswer files
      (codes "/s")
      (codes "/w")
      new_response
      (markdown_body shout)
      markdown_type
      (codes "/s/a.md")
      (handle_markdown shout files (codes "/s") (codes "/w") (codes "/s/a.md") new_response)
handle_markdown_lem_example =
    handle_markdown_lem files (codes "/s") (codes "/w") new_response shout (codes "/s/a.md")

abbrev table : HandlerMap
table = (codes "/", not_found_handler) ∷ (codes "/e", echo_handler) ∷ []

short_prefix : IsPrefixIn (codes "/e/x") table (codes "/")
unfolding starts_with
short_prefix = record { handler = not_found_handler; registered = here; fits = refl }

longest_found : find_longest_handler_key (codes "/e/x") table ≡ codes "/e"
unfolding find_longest_handler_key
longest_found = refl

find_longest_handler_key_lem_example :
    IsPrefixIn (codes "/e/x") table (find_longest_handler_key (codes "/e/x") table)
    × (length (codes "/") ≤ length (find_longest_handler_key (codes "/e/x") table))
find_longest_handler_key_lem_example =
    find_longest_handler_key_lem (codes "/e/x") table (codes "/") short_prefix

abbrev pub proxy : Proxy
proxy = record { uri_prefix = codes "/p"; host_path = codes "h"; port_path = codes "80" }

abbrev pub request : Request
request = record new_request {
  method = codes "GET";
  request_uri = codes "/p" ++ codes "/a";
  version = codes "HTTP/1.1";
  headers = (codes "Host", codes "x") ∷ (codes "A", codes "b") ∷ [];
}

-- A server that sends every request on to itself.
abbrev pub circle : Network
circle host port text = some (record {
  chunks = codes "HTTP/1.1 302 Found\r" ∷ codes "\nLocation: http://h/p/a\r\n\r\n" ∷ [];
  ended = true;
})

-- A location on another host is asked for on the proxied host, and without what has the length of the
-- prefix.
redirect_parsed :
    parse_redirect_location (codes " http://o.com/ab/c\r") ≡ (codes "/ab/c", codes "o.com")
unfolding parse_redirect_location
redirect_parsed = refl

redirect_cut : extract_non_proxy_uri (codes "/pp") (codes "/ab/c") ≡ codes "/c"
unfolding extract_non_proxy_uri
redirect_cut = refl

-- Two files get one name.
names_collide :
    generate_name (codes "remote_file") (codes "1x") 1
    ≡ generate_name (codes "remote_file") (codes "x") 11
unfolding generate_name
names_collide = refl

-- A static handler that no `Init` has seen has an empty prefix and an empty root.
static_default : create_by_name (codes "StaticHandler") ≡ some (static_handler [] [])
unfolding create_by_name
static_default = refl

other_scheme : equal (take 8 (codes "o.com" ++ b'/' ∷ codes "a")) (codes "https://") ≡ false
unfolding equal
other_scheme = refl

parse_redirect_location_lem_example :
    parse_redirect_location (codes "http://" ++ (codes "o.com" ++ b'/' ∷ codes "a"))
    ≡ (b'/' ∷ codes "a", codes "o.com")
parse_redirect_location_lem_example =
    parse_redirect_location_lem (codes "o.com") (codes "a")
      (refl, (refl, (refl, (refl, (refl, (refl, (refl, tt)))))))
      (refl, (refl, (refl, (refl, (refl, tt))))) other_scheme
