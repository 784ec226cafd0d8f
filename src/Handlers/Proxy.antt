-- ===== src/Handlers/Proxy.antt =====
-- handlers/proxy_handler.cc: the rewriting of URIs, requests and redirect locations. The exchange
-- with the other server is in Exchange.
pub mod Stream
pub mod Sockets
pub mod Exchange
pub mod Rewriting
pub mod Locations
pub mod Trimming
use caviar_hacker_grid.Base.{
  ℕ, Bool, true, false, not, ◌&&◌, List, [], ◌∷◌, ◌++◌, Option, none, some, if◌then◌else◌, ltb,
  ◌==◌, length, take, drop,
}
use caviar_hacker_grid.Base.Number.{is_space, skip_space}
use caviar_hacker_grid.Base.Text.{Bytes, codes, equal, find}
use caviar_hacker_grid.Http.MutableRequest.{set_uri, set_header}
use caviar_hacker_grid.Http.Request.{Request}
use mathlib.Core.List.{reverse}

-- `boost::algorithm::trim_copy`.
unfoldable pub trim : Bytes → Bytes
unfolding skip_space
trim s = reverse (skip_space (reverse (skip_space s)))

-- `modified_uri[0] != '/'`, on a text that is not empty, and `"/" +` where it holds.
abbrev pub rooted : Bytes → Bytes
rooted [] = codes "/"
rooted (c ∷ s) = if not (c == b'/') then b'/' ∷ c ∷ s else c ∷ s

-- `ExtractNonProxyUri`. An empty rest is made "/" first.
unfoldable pub extract_non_proxy_uri : Bytes → Bytes → Bytes
extract_non_proxy_uri uri_prefix uri =
    if ltb (length uri) (length uri_prefix) then uri else rooted (drop (length uri_prefix) uri)

-- The fields of a ProxyHandler.
pub record Proxy : Type 0 where
  pub uri_prefix : Bytes
  pub host_path : Bytes
  pub port_path : Bytes

-- `ModifyRequestForProxy`, on a copy of the request.
unfoldable pub modify_request_for_proxy : Proxy → Request → Request
unfolding extract_non_proxy_uri set_uri set_header
modify_request_for_proxy p request =
    set_header (codes "Host") (p.host_path ++ (codes ":" ++ p.port_path)) (
      set_header (codes "Connection") (codes "close")
        (set_uri (extract_non_proxy_uri p.uri_prefix request.request_uri) request))

-- `location.size() > n && location.substr(0, n) == scheme`, and the text without the scheme.
abbrev pub strip_scheme : Bytes → Bytes → Bytes
strip_scheme scheme location =
    if ltb (length scheme) (length location) && equal (take (length scheme) location) scheme
    then drop (length scheme) location
    else location

-- Where the path begins.
abbrev pub split_host : Bytes → Bytes × Bytes
split_host location = elim (find (codes "/") location) [
  | none ↦ (codes "/", location)
  | some path_pos ↦ (drop path_pos location, take path_pos location)
]

-- `ParseRedirectLocation`: the new path and the new host.
unfoldable pub parse_redirect_location : Bytes → Bytes × Bytes
unfolding trim equal find
parse_redirect_location location =
    split_host (strip_scheme (codes "https://") (strip_scheme (codes "http://") (trim location)))
