-- ===== src/Handlers/Table.antt =====
-- handlers/request_handler.h and request_handler.cc: the map from path prefixes to handlers.
pub mod Longest
use caviar_hacker_grid.Base.{
  ℕ, Bool, true, false, List, [], ◌∷◌, Option, none, some, if◌then◌else◌, ltb, length, ◌&&◌,
}
use caviar_hacker_grid.Base.StdMap.{StdMap}
use caviar_hacker_grid.Base.Text.{Bytes, starts_with}
use caviar_hacker_grid.Handlers.{Handler}

-- `HandlerMap`.
abbrev pub HandlerMap : Type 0
HandlerMap = StdMap Bytes Handler

-- `HandlerConfiguration`; `DefaultHandler` is null until the set-up is done.
pub record HandlerConfiguration : Type 0 where
  pub request_handlers : HandlerMap
  pub default_handler : Option Handler

-- The loop of `FindLongestHandlerKey`, with the best key so far. `std::mismatch` is given no end of the
-- URI: where a path is longer it compares with the NUL behind the URI. That is no match unless the path
-- holds a NUL there, and then it reads on past the URI; this is a model for tables whose paths hold none.
unfoldable pub longest_from : Bytes → Bytes → HandlerMap → Bytes
unfolding starts_with
longest_from key best_key [] = best_key
longest_from key best_key ((path, handler) ∷ m) =
    longest_from key
      (if starts_with path key && ltb (length best_key) (length path) then path else best_key) m

-- `FindLongestHandlerKey`: the empty text if no prefix fits.
unfoldable pub find_longest_handler_key : Bytes → HandlerMap → Bytes
unfolding longest_from
find_longest_handler_key key m = longest_from key [] m
