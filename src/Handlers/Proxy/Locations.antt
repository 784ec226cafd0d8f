-- ===== src/Handlers/Proxy/Locations.antt =====
-- `ParseRedirectLocation` on the locations that servers send.
use mathlib.Core.List.{reverse, reverse_aux, reverse-reverse}
use caviar_hacker_grid.Base.{
  ℕ, ◌==◌, Bool, false, [], ◌∷◌, ◌++◌, some, ◌≡◌, ◌≢◌, ◌∙◌, refl, ap, arith, length, take,
  take-length_append, drop-length_append, length-append,
}
use caviar_hacker_grid.Base.Number.{is_space, skip_space}
use caviar_hacker_grid.Base.Text.{Bytes, codes, None, None-append, find, equal, equal_iff}
use caviar_hacker_grid.Handlers.Proxy.{trim, strip_scheme, split_host, parse_redirect_location}

None-reverse_aux : (p : ℕ → Bool) (s t : Bytes) → None p s → None p t → None p (reverse_aux s t)
None-reverse_aux p [] t h k = k
None-reverse_aux p (c ∷ s) t (e, h) k = None-reverse_aux p s (c ∷ t) h (e, k)

skip_space-None : (s : Bytes) → None is_space s → skip_space s ≡ s
unfolding skip_space
skip_space-None [] h = refl
skip_space-None (c ∷ s) (e, h) = rw (skip_space, e)

trim-None : (s : Bytes) → None is_space s → trim s ≡ s
unfolding trim
trim-None s h =
    rw
      (trim, skip_space-None s h, skip_space-None (reverse s) (None-reverse_aux is_space s [] h tt))
      (reverse-reverse s)

-- A text is not stripped of a scheme that it does not begin with.
strip_scheme_other :
    (scheme s : Bytes) → equal (take (length scheme) s) scheme ≡ false → strip_scheme scheme s ≡ s
strip_scheme_other scheme s h = ground (arith, h)

strip_scheme-append : (scheme s : Bytes) → s ≢ [] → strip_scheme scheme (scheme ++ s) ≡ s
strip_scheme-append scheme [] ne = absurd (ne refl)
strip_scheme-append scheme (c ∷ s) ne = ground (
  arith,
  length-append scheme (c ∷ s),
  take-length_append scheme (c ∷ s),
  drop-length_append scheme (c ∷ s),
  equal_iff scheme scheme,
)

find_slash :
    (host path : Bytes)
    → None (λ c. c == b'/') host
    → find (codes "/") (host ++ b'/' ∷ path) ≡ some (length host)
unfolding find
find_slash [] path h = refl
find_slash (c ∷ host) path (e, h) = ground (arith, find_slash host path h)

split_host_lem :
    (host path : Bytes)
    → None (λ c. c == b'/') host
    → split_host (host ++ b'/' ∷ path) ≡ (b'/' ∷ path, host)
split_host_lem host path h =
    rw
      (
        split_host,
        find_slash host path h,
        take-length_append host (b'/' ∷ path),
        drop-length_append host (b'/' ∷ path),
      )
      refl

append-cons_ne_nil : (s : Bytes) (c : ℕ) (t : Bytes) → s ++ c ∷ t ≢ []
append-cons_ne_nil [] c t e = cc
append-cons_ne_nil (d ∷ s) c t e = cc

-- A location of the form `http://host/path`, with no blank in it and no second scheme behind the first,
-- is taken apart into the path, from its slash on, and the host.
pub parse_redirect_location_lem :
    (host path : Bytes)
    → None is_space (host ++ b'/' ∷ path)
    → None (λ c. c == b'/') host
    → equal (take 8 (host ++ b'/' ∷ path)) (codes "https://") ≡ false
    → parse_redirect_location (codes "http://" ++ (host ++ b'/' ∷ path)) ≡ (b'/' ∷ path, host)
unfolding parse_redirect_location
parse_redirect_location_lem host path blanks slashes https =
    let rest = host ++ b'/' ∷ path in
    let location = codes "http://" ++ rest in
    let trimmed = trim-None location (
      None-append is_space (codes "http://") rest
        (refl, (refl, (refl, (refl, (refl, (refl, (refl, tt))))))) blanks) in
    ap (λ l. split_host (strip_scheme (codes "https://") (strip_scheme (codes "http://") l)))
      trimmed
    ∙ ap (λ l. split_host (strip_scheme (codes "https://") l))
        (strip_scheme-append (codes "http://") rest (append-cons_ne_nil host b'/' path))
    ∙ ap split_host (strip_scheme_other (codes "https://") rest https)
    ∙ split_host_lem host path slashes
