-- ===== src/Handlers/Table/Longest.antt =====
-- The prefixes of a URI in the map of handlers, and `FindLongestHandlerKey`.
use caviar_hacker_grid.Base.{
  ◌≤◌, true, ◌&&◌, [], ◌∷◌, ◌≡◌, ◌⊎◌, inl, inr, refl, arith, length, ltb, if◌then◌else◌, Bool-cases,
  subst, ◌≢◌, ◌∙◌, sym,
}
use caviar_hacker_grid.Base.Text.{Bytes, starts_with}
use caviar_hacker_grid.Handlers.{Handler}
use caviar_hacker_grid.Handlers.Table.{HandlerMap, longest_from, find_longest_handler_key}

-- The path is in the map, with this handler.
pub data IsRegistered (path : Bytes) (handler : Handler) : HandlerMap → Type 0 where
  here : {m : HandlerMap} → IsRegistered path handler ((path, handler) ∷ m)
  there :
      {entry : Bytes × Handler} {m : HandlerMap}
      → IsRegistered path handler m
      → IsRegistered path handler (entry ∷ m)

-- The better of the key so far and a path.
abbrev better : Bytes → Bytes → Bytes → Bytes
better key best path =
    if starts_with path key && ltb (length best) (length path) then path else best

le-longest_from :
    (key best : Bytes) (m : HandlerMap) → length best ≤ length (longest_from key best m)
unfolding longest_from
le-longest_from key best [] = omega arith
le-longest_from key best ((p, g) ∷ m) =
    let after : length best ≤ length (better key best p) = ground arith in
    omega (arith, le-longest_from key (better key best p) m)

prefix-le-longest_from :
    {path : Bytes} {h : Handler} {m : HandlerMap} (key best : Bytes)
    → IsRegistered path h m
    → starts_with path key ≡ true
    → length path ≤ length (longest_from key best m)
unfolding longest_from
prefix-le-longest_from {path} key best (here {m}) s =
    let after : length path ≤ length (better key best path) = ground arith in
    omega (arith, le-longest_from key (better key best path) m)
prefix-le-longest_from key best (there {entry = (p, g)} r) s =
    prefix-le-longest_from key (better key best p) r s

-- A prefix of the URI that is in the map.
pub record IsPrefixIn (key : Bytes) (m : HandlerMap) (path : Bytes) : Type 0 where
  pub handler : Handler
  pub registered : IsRegistered path handler m
  pub fits : starts_with path key ≡ true

later :
    {key path : Bytes} {m : HandlerMap} (entry : Bytes × Handler)
    → IsPrefixIn key m path
    → IsPrefixIn key (entry ∷ m) path
later entry f = record { handler = f.handler; registered = there f.registered; fits = f.fits }

longest_from_found :
    (key best : Bytes) (m : HandlerMap)
    → (longest_from key best m ≡ best) ⊎ IsPrefixIn key m (longest_from key best m)
unfolding longest_from
longest_from_found key best [] = inl refl
longest_from_found key best ((p, g) ∷ m) =
    elim (Bool-cases (starts_with p key && ltb (length best) (length p))) [
      | inl e ↦ rw e (elim (longest_from_found key p m) [
        | inl same ↦ inr (rw same (record { handler = g; registered = here; fits = ground arith }))
        | inr f ↦ inr (later (p, g) f)
      ])
      | inr e ↦ rw e (elim (longest_from_found key best m) [
        | inl same ↦ inl same
        | inr f ↦ inr (later (p, g) f)
      ])
    ]

length-zero : (s : Bytes) → length s ≤ 0 → s ≡ []
length-zero [] h = refl
length-zero (c ∷ s) h = absurd (omega arith)

-- If the map holds a prefix of the URI, the key found is such a prefix, and none is longer.
pub find_longest_handler_key_lem :
    (key : Bytes) (m : HandlerMap) (path : Bytes)
    → IsPrefixIn key m path
    → IsPrefixIn key m (find_longest_handler_key key m)
      × (length path ≤ length (find_longest_handler_key key m))
unfolding find_longest_handler_key
find_longest_handler_key_lem key m path f =
    let bound = prefix-le-longest_from key [] f.registered f.fits in
    elim (longest_from_found key [] m) [
      | inl same ↦
          let empty = length-zero path (subst (λ k. length path ≤ length k) same bound) in
          (subst (IsPrefixIn key m) (empty ∙ sym same) f, bound)
      | inr found ↦ (found, bound)
    ]

-- If the key found is not empty, the map holds it.
pub find_longest_handler_key-IsPrefixIn :
    (key : Bytes) (m : HandlerMap)
    → find_longest_handler_key key m ≢ []
    → IsPrefixIn key m (find_longest_handler_key key m)
unfolding find_longest_handler_key
find_longest_handler_key-IsPrefixIn key m ne = elim (longest_from_found key [] m) [
  | inl same ↦ absurd (ne same)
  | inr found ↦ found
]
