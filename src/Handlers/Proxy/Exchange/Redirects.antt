-- ===== src/Handlers/Proxy/Exchange/Redirects.antt =====
-- How long `SendRequestToServer` runs: the header lines of a reply, and redirects.
use caviar_hacker_grid.Base.{◌≡◌}
use caviar_hacker_grid.Base.Run.{Run}
use caviar_hacker_grid.Base.Text.{Bytes}
use caviar_hacker_grid.Handlers.Proxy.Stream.{Stream, NextHeader, no_header, next_header}
use caviar_hacker_grid.Handlers.Proxy.{Proxy}
use caviar_hacker_grid.Http.MutableRequest
use caviar_hacker_grid.Http.Request.{Request}
use caviar_hacker_grid.Http.Response.{Response}

data NextHeaderIs (h : NextHeader) : Type 0 where
  is_none : (s : Stream) → h ≡ no_header s → NextHeaderIs h
  is_next : (key value : Bytes) (s : Stream) → h ≡ next_header key value s → NextHeaderIs h
