-- ===== src/Handlers/Init.antt =====
-- The `Init` of each handler.
use caviar_hacker_grid.Base.{List, [], ◌∷◌, Option, none, some, if◌then◌else◌}
use caviar_hacker_grid.Base.Number.{stoi, exceeds}
use caviar_hacker_grid.Base.Run.{Run, done, or_throw, or_undefined, ◌>>=◌}
use caviar_hacker_grid.Base.Text.{Bytes, codes}
use caviar_hacker_grid.Config.{Config, children, find_tokens}
use caviar_hacker_grid.Handlers.{
  Status, ok, invalid_config, Handler, static_handler, markdown_handler, cloud_file_handler,
  proxy_handler,
}

-- `config.find(key)`; a child with no token is an undefined read.
abbrev pub tokens_of : Bytes → Config → Run (List Bytes)
tokens_of key config = or_undefined (find_tokens key (children config))

-- The token behind the key, where `size() < 2` refuses.
abbrev pub second : List Bytes → Option Bytes
second (key ∷ value ∷ rest) = some value
second _ = none

-- The same where `size() != 2` refuses.
abbrev pub only_second : List Bytes → Option Bytes
only_second (key ∷ value ∷ []) = some value
only_second _ = none

abbrev pub take_or_refuse : Handler → (Bytes → Handler) → Option Bytes → Status × Handler
take_or_refuse old new none = (invalid_config, old)
take_or_refuse old new (some value) = (ok, new value)

-- The port of a ProxyHandler, from the tokens of its `port` statement.
unfoldable pub init_proxy_port : Bytes → Bytes → List Bytes → Run (Status × Handler)
unfolding stoi
init_proxy_port uri_prefix host [] = done (ok, proxy_handler uri_prefix host (codes "80"))
init_proxy_port uri_prefix host (key ∷ port ∷ []) = do
  number ← or_throw (stoi port)
  done (
      if exceeds number 65535
      then (invalid_config, proxy_handler uri_prefix host [])
      else (ok, proxy_handler uri_prefix host port))
init_proxy_port uri_prefix host _ = done (invalid_config, proxy_handler uri_prefix host [])

-- `ProxyHandler::Init`.
unfoldable pub init_proxy : Bytes → Config → Run (Status × Handler)
unfolding init_proxy_port find_tokens
init_proxy uri_prefix config = do
  host_config_tokens ← tokens_of (codes "host") config
  elim (only_second host_config_tokens) [
    | none ↦ done (invalid_config, proxy_handler uri_prefix [] [])
    | some host ↦ tokens_of (codes "port") config >>= init_proxy_port uri_prefix host
  ]

-- `Init`, by the handler's class: what it returns, and the handler it leaves.
unfoldable pub init : Handler → Bytes → Config → Run (Status × Handler)
unfolding init_proxy find_tokens
init (static_handler p root) uri_prefix config = tokens_of (codes "root") config >>= λ tokens.
    done
      (take_or_refuse (static_handler uri_prefix root) (static_handler uri_prefix) (second tokens))
init (markdown_handler p root) uri_prefix config = tokens_of (codes "root") config >>= λ tokens.
    done (
      take_or_refuse (markdown_handler uri_prefix root) (markdown_handler uri_prefix)
        (second tokens))
init (cloud_file_handler p bucket) uri_prefix config =
    tokens_of (codes "bucket") config >>= λ tokens. done (
      take_or_refuse (cloud_file_handler uri_prefix bucket) (cloud_file_handler uri_prefix)
        (second tokens))
init (proxy_handler p host port) uri_prefix config = init_proxy uri_prefix config
init h uri_prefix config = done (ok, h)
