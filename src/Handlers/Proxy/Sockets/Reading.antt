-- ===== src/Handlers/Proxy/Sockets/Reading.antt =====
-- What the buffer holds behind a read, and what is left of the connection.
use caviar_hacker_grid.Base.{
  ℕ, zero, suc, ◌+◌, ◌-◌, ◌≤◌, ◌<◌, false, List, [], ◌∷◌, ◌++◌, ◌≡◌, ◌≢◌, ◌⊎◌, inl, inr, refl, sym,
  ap, ◌∙◌, arith, leb, length, take, drop, All, append_assoc, append-nil, length-append,
  take-append-drop, Bool-cases,
}
use caviar_hacker_grid.Base.Run.{done, diverges}
use caviar_hacker_grid.Base.Text.{Bytes}
use caviar_hacker_grid.Handlers.Proxy.Sockets.{
  free, read_some, joined, read_to_eof, rounds, socket_read_to_eof,
}

-- A read from a socket brings a byte at least.
abbrev pub HasByte : Bytes → Type 0
HasByte [] = ⊥
HasByte (_ ∷ _) = Unit

HasByte-length : (c : Bytes) → HasByte c → length c ≢ 0
HasByte-length [] h = λ e. h
HasByte-length (b ∷ c) h = λ e. omega (arith, e)

length-HasByte : (c : Bytes) → length c ≢ 0 → HasByte c
length-HasByte [] h = h refl
length-HasByte (b ∷ c) h = tt

length-drop : {A : Type 0} (n : ℕ) (xs : List A) → length (drop n xs) ≡ length xs - n
length-drop zero xs = omega arith
length-drop (suc n) [] = omega arith
length-drop (suc n) (x ∷ xs) = omega (arith, length-drop n xs)

-- Nothing is lost or made between the buffer and the chunks.
pub record IsSplit (buffer : Bytes) (chunks : List Bytes) (buffer' : Bytes) (chunks' : List Bytes)
    : Type 0 where
  pub same : buffer' ++ joined chunks' ≡ buffer ++ joined chunks
  pub bytes : All HasByte chunks → All HasByte chunks'

pub IsSplit-refl : (buffer : Bytes) (chunks : List Bytes) → IsSplit buffer chunks buffer chunks
IsSplit-refl buffer chunks = record { same = refl; bytes = λ a. a }

pub IsSplit-whole :
    (buffer chunk : Bytes) (chunks : List Bytes)
    → IsSplit buffer (chunk ∷ chunks) (buffer ++ chunk) chunks
IsSplit-whole buffer chunk chunks = record {
  same = append_assoc buffer chunk (joined chunks);
  bytes = λ a. a.1;
}

pub IsSplit-cut :
    (n : ℕ) (buffer chunk : Bytes) (chunks : List Bytes)
    → leb (length chunk) n ≡ false
    → IsSplit buffer (chunk ∷ chunks) (buffer ++ take n chunk) (drop n chunk ∷ chunks)
IsSplit-cut n buffer chunk chunks e = record {
  same =
      append_assoc buffer (take n chunk) (drop n chunk ++ joined chunks)
      ∙ ap (◌++◌ buffer) (
          sym (append_assoc (take n chunk) (drop n chunk) (joined chunks))
          ∙ ap (λ c. c ++ joined chunks) (take-append-drop n chunk));
  bytes = λ a. (
    length-HasByte (drop n chunk) (λ z.
        let short : n < length chunk = ground arith in
        omega (arith, z, short, length-drop n chunk)),
    a.1,
  );
}

read_some-IsSplit :
    (buffer : Bytes) (chunks : List Bytes)
    → IsSplit buffer chunks (read_some buffer chunks).0 (read_some buffer chunks).1
unfolding read_some
read_some-IsSplit buffer [] = IsSplit-refl buffer []
read_some-IsSplit buffer (chunk ∷ chunks) = elim (Bool-cases (leb (length chunk) (free buffer))) [
  | inl e ↦ rw e (IsSplit-whole buffer chunk chunks)
  | inr e ↦ rw e (IsSplit-cut (free buffer) buffer chunk chunks e)
]

Bytes-cases : (s : Bytes) → (s ≡ []) ⊎ ((c : ℕ) × (t : Bytes) × (s ≡ c ∷ t))
Bytes-cases [] = inl refl
Bytes-cases (c ∷ t) = inr (c, t, refl)

pub length-take : {A : Type 0} (n : ℕ) (xs : List A) → n ≤ length xs → length (take n xs) ≡ n
length-take zero xs h = refl
length-take (suc n) [] h = omega (arith, h)
length-take (suc n) (x ∷ xs) h = omega (arith, h, length-take n xs)

-- A read brings nothing only where nothing is left.
read_some_empty :
    (buffer : Bytes) (chunks : List Bytes)
    → All HasByte chunks
    → (read_some buffer chunks).0 ≡ []
    → buffer ++ joined chunks ≡ []
unfolding read_some
read_some_empty buffer [] a e = rw append-nil e
read_some_empty buffer ([] ∷ chunks) a e = absurd a.0
read_some_empty buffer ((b ∷ chunk) ∷ chunks) a e =
    let c = b ∷ chunk in
    elim (Bool-cases (leb (length c) (free buffer))) [
      | inl f ↦
          let g : buffer ++ c ≡ [] = sym (rw f refl) ∙ e in
          absurd (HasByte-length c tt (omega (arith, length-append buffer c, ap length g)))
      | inr f ↦
          let g : buffer ++ take (free buffer) c ≡ [] = sym (rw f refl) ∙ e in
          let long : free buffer < length c = ground arith in
          absurd (
            omega (
              arith,
              ap length g,
              length-append buffer (take (free buffer) c),
              length-take (free buffer) c,
              long,
            ))
    ]

-- The bytes that a round takes make the rest shorter.
rest_shorter :
    (buffer : Bytes) (chunks : List Bytes) (c : ℕ) (t : Bytes) (n : ℕ)
    → (read_some buffer chunks).0 ≡ c ∷ t
    → length buffer + length (joined chunks) < suc n
    → length (joined (read_some buffer chunks).1) < n
rest_shorter buffer chunks c t n e h =
    let (read, left) = read_some buffer chunks in
    omega (
      arith,
      h,
      ap length e,
      ap length (read_some-IsSplit buffer chunks).same,
      length-append read (joined left),
      length-append buffer (joined chunks),
    )

pub read_to_eof-ne-diverges :
    (n : ℕ) (data_ buffer : Bytes) (chunks : List Bytes)
    → length buffer + length (joined chunks) < n
    → read_to_eof n data_ buffer chunks ≢ diverges
unfolding read_to_eof
read_to_eof-ne-diverges zero data_ buffer chunks h = λ e. ground arith
read_to_eof-ne-diverges (suc n) data_ buffer chunks h =
    elim (Bytes-cases (read_some buffer chunks).0) [
      | inl e ↦ rw (read_to_eof, e) (λ f. cc)
      | inr (c, t, e) ↦
          rw (read_to_eof, e)
            (read_to_eof-ne-diverges n (data_ ++ c ∷ t) [] (read_some buffer chunks).1
              (omega (arith, rest_shorter buffer chunks c t n e h)))
    ]

read_to_eof_lem :
    (n : ℕ) (data_ buffer : Bytes) (chunks : List Bytes)
    → length buffer + length (joined chunks) < n
    → All HasByte chunks
    → read_to_eof n data_ buffer chunks ≡ done (data_ ++ (buffer ++ joined chunks))
unfolding read_to_eof
read_to_eof_lem zero data_ buffer chunks h a = ground arith
read_to_eof_lem (suc n) data_ buffer chunks h a = elim (Bytes-cases (read_some buffer chunks).0) [
  | inl e ↦
      rw (read_to_eof, e)
        (ap done
          (sym (append-nil data_) ∙ ap (◌++◌ data_) (sym (read_some_empty buffer chunks a e))))
  | inr (c, t, e) ↦
      let left = (read_some buffer chunks).1 in
      let split = read_some-IsSplit buffer chunks in
      rw (read_to_eof, e)
        (read_to_eof_lem n (data_ ++ c ∷ t) [] left
            (omega (arith, rest_shorter buffer chunks c t n e h)) (split.bytes a)
          ∙ ap done (
              append_assoc data_ (c ∷ t) (joined left)
              ∙ ap (◌++◌ data_) (ap (λ r. r ++ joined left) (sym e) ∙ split.same)))
]

-- `SocketReadToEOF` ends, and brings all that is left, however it is cut.
pub socket_read_to_eof-ne-diverges :
    (buffer : Bytes) (chunks : List Bytes) → socket_read_to_eof buffer chunks ≢ diverges
unfolding socket_read_to_eof
socket_read_to_eof-ne-diverges buffer chunks =
    read_to_eof-ne-diverges (rounds buffer chunks) [] buffer chunks (omega arith)

pub socket_read_to_eof_lem :
    (buffer : Bytes) (chunks : List Bytes)
    → All HasByte chunks
    → socket_read_to_eof buffer chunks ≡ done (buffer ++ joined chunks)
unfolding socket_read_to_eof
socket_read_to_eof_lem buffer chunks a =
    read_to_eof_lem (rounds buffer chunks) [] buffer chunks (omega arith) a
