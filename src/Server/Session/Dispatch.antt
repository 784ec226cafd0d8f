-- ===== src/Server/Session/Dispatch.antt =====
-- The handler that `Session::do_read` picks for a URI.
use caviar_hacker_grid.Base.{[], ◌∷◌, some, ◌≡◌, ◌≢◌, ◌⊎◌, inl, inr, refl, Ordering, ◌∙◌}
use caviar_hacker_grid.Base.StdMap.{lookup, IsBelow, IsSorted}
use caviar_hacker_grid.Base.StdMap.Keys.{text_order}
use caviar_hacker_grid.Base.Text.{Bytes}
use caviar_hacker_grid.Handlers.{Handler}
use caviar_hacker_grid.Handlers.Table.{HandlerMap, HandlerConfiguration, find_longest_handler_key}
use caviar_hacker_grid.Handlers.Table.Longest.{
  IsRegistered, here, there, IsPrefixIn, find_longest_handler_key-IsPrefixIn,
}
use caviar_hacker_grid.Server.Session.{handler_for}

-- A key in front of a map with its keys in order is less than all registered keys.
below_registered :
    {path : Bytes} {h : Handler} {m : HandlerMap}
    → IsRegistered path h m
    → (j : Bytes) → IsBelow j m
    → IsSorted m
    → text_order.order j path ≡ Ordering.lt
below_registered here j b s = b
below_registered {path} (there {entry = (i, g)} r) j b (c, s) =
    text_order.lt_trans j i path b (below_registered r i c s)

lookup-IsRegistered :
    {path : Bytes} {h : Handler} {m : HandlerMap}
    → IsRegistered path h m
    → IsSorted m
    → lookup path m ≡ some h
unfolding lookup
lookup-IsRegistered {path} here s = rw (lookup, (text_order.eq_iff path path).1 refl) refl
lookup-IsRegistered {path} (there {entry = (i, g)} r) (b, s) =
    rw (lookup, (text_order.gt_iff path i).1 (below_registered r i b s)) (lookup-IsRegistered r s)

pub handler_for-key :
    (c : HandlerConfiguration) (key : Bytes)
    → key ≢ []
    → handler_for c key ≡ lookup key c.request_handlers
handler_for-key c [] ne = absurd (ne refl)
handler_for-key c (k ∷ key) ne = refl

[]-cases : (s : Bytes) → (s ≡ []) ⊎ (s ≢ [])
[]-cases [] = inl refl
[]-cases (c ∷ s) = inr λ e. cc

-- Once there is a default handler, a session finds a handler for every URI: the one registered under
-- the longest prefix of the URI in the table, or the default handler where the key found is empty.
pub handler_for_lem :
    (c : HandlerConfiguration) (uri : Bytes) (d : Handler)
    → IsSorted c.request_handlers
    → c.default_handler ≡ some d
    → ((find_longest_handler_key uri c.request_handlers ≡ [])
        × (handler_for c (find_longest_handler_key uri c.request_handlers) ≡ some d))
      ⊎ ((f : IsPrefixIn uri c.request_handlers (find_longest_handler_key uri c.request_handlers))
          × (handler_for c (find_longest_handler_key uri c.request_handlers) ≡ some f.handler))
handler_for_lem c uri d s e =
    let key = find_longest_handler_key uri c.request_handlers in
    elim ([]-cases key) [
      | inl empty ↦ inl (empty, rw empty e)
      | inr ne ↦
          let f = find_longest_handler_key-IsPrefixIn uri c.request_handlers ne in
          inr (f, handler_for-key c key ne ∙ lookup-IsRegistered f.registered s)
    ]
