-- ===== src/Handlers/Proxy/Sockets/Separators.antt =====
-- How far `SocketReadUntil` reads.
use caviar_hacker_grid.Base.{
  ℕ, ◌+◌, ◌≤◌, ◌<◌, true, ◌||◌, List, [], ◌∷◌, ◌++◌, some, ◌≡◌, inl, inr, refl, sym, ap, ◌∙◌, arith,
  leb, length, take, All, append-nil, length-append, Bool-cases, Option-cases,
}
use caviar_hacker_grid.Base.Text.{Bytes, find}
use caviar_hacker_grid.Base.Text.Search.{find-append, find_bound}
use caviar_hacker_grid.Handlers.Proxy.Sockets.{buf_size, free, contains, read_until, joined}
use caviar_hacker_grid.Handlers.Proxy.Sockets.Reading.{
  HasByte, IsSplit, IsSplit-refl, IsSplit-whole, IsSplit-cut, length-take,
}

IsSplit-trans :
    {a b c : Bytes} {l m n : List Bytes} → IsSplit a l b m → IsSplit b m c n → IsSplit a l c n
IsSplit-trans s t = record { same = t.same ∙ s.same; bytes = λ a. t.bytes (s.bytes a) }

-- Why reading stops: the separator is there, the buffer is full, or nothing is left.
data Stopped (sep buffer : Bytes) (chunks : List Bytes) : Type 0 where
  found : (i : ℕ) → find sep buffer ≡ some i → Stopped sep buffer chunks
  full : buf_size ≤ length buffer → Stopped sep buffer chunks
  over : chunks ≡ [] → Stopped sep buffer chunks

abbrev Until : Bytes → Bytes → List Bytes → Bytes × List Bytes → Type 0
Until sep buffer chunks r = IsSplit buffer chunks r.0 r.1 × Stopped sep r.0 r.1

Stopped-first :
    (sep buffer : Bytes) (chunks : List Bytes)
    → (contains sep buffer || leb buf_size (length buffer)) ≡ true
    → Stopped sep buffer chunks
Stopped-first sep buffer chunks e = elim (Option-cases (find sep buffer)) [
  | inl n ↦ full (ground arith)
  | inr (i, n) ↦ found i n
]

read_until-Until :
    (sep buffer : Bytes) (chunks : List Bytes)
    → Until sep buffer chunks (read_until sep buffer chunks)
unfolding read_until
read_until-Until sep buffer [] = (IsSplit-refl buffer [], over refl)
read_until-Until sep buffer (chunk ∷ chunks) =
    elim (Bool-cases (contains sep buffer || leb buf_size (length buffer))) [
      | inl e ↦
          rw (read_until, e)
            (IsSplit-refl buffer (chunk ∷ chunks), Stopped-first sep buffer (chunk ∷ chunks) e)
      | inr e ↦ elim (Bool-cases (leb (length chunk) (free buffer))) [
        | inl f ↦
            let (split, stopped) = read_until-Until sep (buffer ++ chunk) chunks in
            rw (read_until, e, f) (IsSplit-trans (IsSplit-whole buffer chunk chunks) split, stopped)
        | inr f ↦
            let long : free buffer < length chunk = ground arith in
            rw (read_until, e, f)
              (
                IsSplit-cut (free buffer) buffer chunk chunks f,
                full (
                    omega (
                      arith,
                      long,
                      length-append buffer (take (free buffer) chunk),
                      length-take (free buffer) chunk,
                    )),
              )
      ]
    ]

-- A front of the text that no separator ends within, and that fits the buffer, is reached.
reaches :
    (x : ℕ) (p buffer front back : Bytes) (chunks : List Bytes)
    → Stopped (x ∷ p) buffer chunks
    → buffer ++ joined chunks ≡ front ++ back
    → ((j : ℕ) → find (x ∷ p) (front ++ back) ≡ some j → length front ≤ j + length (x ∷ p))
    → length front ≤ buf_size
    → length front ≤ length buffer
reaches x p buffer front back chunks (found j f) e h l =
    let g : find (x ∷ p) (front ++ back) ≡ some j =
      ap (find (x ∷ p)) (sym e) ∙ find-append x p buffer (joined chunks) j f in
    omega (arith, h j g, find_bound (x ∷ p) buffer j f)
reaches x p buffer front back chunks (full f) e h l = omega (arith, f, l)
reaches x p buffer front back chunks (over f) e h l =
    let whole : buffer ≡ front ++ back =
      sym (append-nil buffer) ∙ ap (λ c. buffer ++ joined c) (sym f) ∙ e in
    omega (arith, ap length whole, length-append front back)

-- A text that is split behind its first part.
split_at :
    (front back buffer rest : Bytes)
    → buffer ++ rest ≡ front ++ back
    → length front ≤ length buffer
    → (more : Bytes) × (buffer ≡ front ++ more) × (more ++ rest ≡ back)
split_at [] back buffer rest e h = (buffer, refl, e)
split_at (c ∷ front) back [] rest e h = ground arith
split_at (c ∷ front) back (d ∷ buffer) rest e h =
    let same : buffer ++ rest ≡ front ++ back = cc in
    let (more, f, g) = split_at front back buffer rest same (omega (arith, h)) in
    let head : d ≡ c = cc in (more, ap (λ x. x ∷ buffer) head ∙ ap (◌∷◌ c) f, g)

-- `SocketReadUntil` brings a front of the text that no separator ends within, if that fits the buffer of
-- 8192 bytes, and possibly more of the text.
pub read_until_lem :
    (x : ℕ) (p buffer : Bytes) (chunks : List Bytes) (front back : Bytes)
    → buffer ++ joined chunks ≡ front ++ back
    → ((j : ℕ) → find (x ∷ p) (front ++ back) ≡ some j → length front ≤ j + length (x ∷ p))
    → length front ≤ buf_size
    → All HasByte chunks
    → (more : Bytes) × (left : List Bytes) × (read_until (x ∷ p) buffer chunks
        ≡ (front ++ more, left))
      × (more ++ joined left ≡ back)
      × All HasByte left
read_until_lem x p buffer chunks front back e f l a =
    let (split, stopped) = read_until-Until (x ∷ p) buffer chunks in
    let (buffer', left) = read_until (x ∷ p) buffer chunks in
    let same = split.same ∙ e in
    let reached = reaches x p buffer' front back left stopped same f l in
    let (more, g, k) = split_at front back buffer' (joined left) same reached in
    (more, left, ap (λ b. (b, left)) g, k, split.bytes a)
