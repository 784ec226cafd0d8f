-- ===== src/Handlers/Proxy/Sockets.antt =====
-- handlers/proxy_handler.cc, `SocketReadUntil` and `SocketReadToEOF`. What a connection brings is a list
-- of chunks, one for each read from the socket, and at its end an error code. The buffer takes 8192
-- bytes: a chunk that does not fit is cut there, and its rest stays with the system.
pub mod Reading
pub mod Separators
use caviar_hacker_grid.Base.{
  ℕ, zero, suc, ◌+◌, ◌-◌, Bool, true, false, ◌||◌, List, [], ◌∷◌, ◌++◌, none, some, if◌then◌else◌,
  leb, length, take, drop,
}
use caviar_hacker_grid.Base.Run.{Run, done, diverges}
use caviar_hacker_grid.Base.Text.{Bytes, find}

-- `bufSize`.
abbrev pub buf_size : ℕ
buf_size = 8192

abbrev pub free : Bytes → ℕ
free buffer = buf_size - length buffer

abbrev pub contains : Bytes → Bytes → Bool
contains sep buffer = elim (find sep buffer) [ none ↦ false | some _ ↦ true ]

-- `SocketReadUntil`: the buffer and the chunks left. It reads until the buffer has the separator, is
-- full, or nothing more comes.
unfoldable pub read_until : Bytes → Bytes → List Bytes → Bytes × List Bytes
unfolding find
read_until sep buffer [] = (buffer, [])
read_until sep buffer (chunk ∷ chunks) =
    let more = read_until sep (buffer ++ chunk) chunks in
    if contains sep buffer || leb buf_size (length buffer)
    then (buffer, chunk ∷ chunks)
    else if leb (length chunk) (free buffer)
    then more
    else (buffer ++ take (free buffer) chunk, drop (free buffer) chunk ∷ chunks)

-- `read` with `transfer_at_least(1)`.
unfoldable pub read_some : Bytes → List Bytes → Bytes × List Bytes
read_some buffer [] = (buffer, [])
read_some buffer (chunk ∷ chunks) =
    if leb (length chunk) (free buffer)
    then (buffer ++ chunk, chunks)
    else (buffer ++ take (free buffer) chunk, drop (free buffer) chunk ∷ chunks)

-- The bytes that have not reached the buffer.
abbrev pub joined : List Bytes → Bytes
joined [] = []
joined (chunk ∷ chunks) = chunk ++ joined chunks

-- The loop of `SocketReadToEOF`, in at most the given number of rounds: `data` with all that is left.
unfoldable pub read_to_eof : ℕ → Bytes → Bytes → List Bytes → Run Bytes
unfolding read_some
read_to_eof zero data_ buffer chunks = diverges
read_to_eof (suc n) data_ buffer chunks =
    let (read, left) = read_some buffer chunks in
    elim read [ [] ↦ done data_ | b ∷ bytes ↦ read_to_eof n (data_ ++ b ∷ bytes) [] left ]

-- A round takes a byte at least.
abbrev pub rounds : Bytes → List Bytes → ℕ
rounds buffer chunks = suc (length buffer + length (joined chunks))

-- `SocketReadToEOF`, from an empty `data`.
unfoldable pub socket_read_to_eof : Bytes → List Bytes → Run Bytes
unfolding read_to_eof
socket_read_to_eof buffer chunks = read_to_eof (rounds buffer chunks) [] buffer chunks
