-- ===== src/Http/Request.antt =====
-- http/httpRequest.h and http/httpRequest.cc: `Request::Parse`.
pub mod Exact
pub mod Headers
pub mod Lines
pub mod Serial
pub mod Blocks
pub mod Sound
pub mod Splits
use caviar_hacker_grid.Base.{
  ℕ, ◌+◌, ◌-◌, Bool, true, false, List, [], ◌∷◌, ◌++◌, Option, none, some, ◌==◌, if◌then◌else◌,
}
use caviar_hacker_grid.Base.StdMap.{StdMap, assign, update}
use caviar_hacker_grid.Base.StdMap.Keys.{text_order}
use caviar_hacker_grid.Base.Text.{Bytes, codes, find, substr, substr_len, c_str}

-- `class Request`.
pub record Request : Type 0 where
  pub header_fields : StdMap Bytes Bytes
  pub headers : List (Bytes × Bytes)
  pub raw_request : Bytes
  pub request_line : Bytes
  pub message_body : Bytes
  pub method : Bytes
  pub version : Bytes
  pub request_uri : Bytes

-- `new Request()`.
abbrev pub new_request : Request
new_request = record {
  header_fields = [];
  headers = [];
  raw_request = [];
  request_line = [];
  message_body = [];
  method = [];
  version = [];
  request_uri = [];
}

-- How a step of the parser ends: it returns `true`, or `false`, or `substr` throws.
pub data Parsed (A : Type 0) : Type 0 where
  parsed : A → Parsed A
  rejected : Parsed A
  thrown : Parsed A

infixl 5 ◌>>=◌
abbrev pub ◌>>=◌ : {A B : Type 0} → Parsed A → (A → Parsed B) → Parsed B
parsed a >>= k = k a
rejected >>= k = rejected
thrown >>= k = thrown

-- `std::string::npos` is a failure, or the exception of `substr` is.
abbrev pub or_reject : {A : Type 0} → Option A → Parsed A
or_reject none = rejected
or_reject (some a) = parsed a

abbrev pub or_throw : {A : Type 0} → Option A → Parsed A
or_throw none = thrown
or_throw (some a) = parsed a

abbrev pub crlf : Bytes
crlf = b'\r' ∷ b'\n' ∷ []

abbrev pub crlf_crlf : Bytes
crlf_crlf = b'\r' ∷ b'\n' ∷ b'\r' ∷ b'\n' ∷ []

-- A token of `strtok`, unless it is empty.
abbrev pub flush : Bytes → List Bytes → List Bytes
flush [] tokens = tokens
flush (c ∷ w) tokens = (c ∷ w) ∷ tokens

-- The calls of `strtok(…, " ")`: the runs of bytes between spaces.
unfoldable pub split_spaces : Bytes → Bytes → List Bytes
split_spaces word [] = flush word []
split_spaces word (c ∷ s) = elim (c == b' ') [
  | true ↦ flush word (split_spaces [] s)
  | false ↦ split_spaces (word ++ c ∷ []) s
]

-- The three fields of the request line.
abbrev pub with_fields : Request → List Bytes → Parsed Request
with_fields r (method ∷ uri ∷ version ∷ []) =
    parsed (record r { method = method; request_uri = uri; version = version })
with_fields r _ = rejected

-- `processRequestLine`. `strtok` stops at a NUL.
unfoldable pub process_request_line : Bytes → Request → Parsed Request
unfolding find substr_len c_str split_spaces
process_request_line request r = do
  end_request_ln_idx ← or_reject (find crlf request)
  line ← or_throw (substr_len request 0 end_request_ln_idx)
  with_fields (record r { request_line = line }) (split_spaces [] (c_str line))

-- `processMessageBody`.
unfoldable pub process_message_body : Bytes → Request → Parsed Request
unfolding find substr
process_message_body request r = do
  body_start_inx ← or_reject (find crlf_crlf request)
  body ← or_throw (substr request (body_start_inx + 4))
  parsed (record r { message_body = body })

-- The header lines: the text cut at each "\r\n", from the left.
unfoldable pub split_lines : Bytes → Bytes → List Bytes
split_lines line [] = line ∷ []
split_lines line (c ∷ []) = (line ++ c ∷ []) ∷ []
split_lines line (c ∷ d ∷ s) = elim (c == b'\r') [
  | true ↦ elim (d == b'\n') [
    | true ↦ line ∷ split_lines [] s
    | false ↦ split_lines (line ++ c ∷ []) (d ∷ s)
  ]
  | false ↦ split_lines (line ++ c ∷ []) (d ∷ s)
]

-- The loop over the header lines. The value is taken from two bytes behind the colon.
unfoldable pub read_headers : List Bytes → Request → Parsed Request
unfolding find substr_len substr update
read_headers [] r = parsed r
read_headers (line ∷ lines) r = do
  header_value_cut ← or_reject (find (codes ":") line)
  name ← or_throw (substr_len line 0 header_value_cut)
  value ← or_throw (substr line (header_value_cut + 2))
  read_headers lines (record r { header_fields = assign name value r.header_fields })

-- `start_idx == end_idx`, where `none` is `npos`.
abbrev pub same_index : Option ℕ → Option ℕ → Bool
same_index none none = true
same_index (some i) (some j) = i == j
same_index _ _ = false

-- The text between the request line and the blank line. The indices that are `npos` wrap around;
-- `ParseRequest` does not come here with one.
abbrev pub header_text : Bytes → Option ℕ → Option ℕ → Option Bytes
header_text request (some start_idx) (some end_idx) =
    substr_len request (start_idx + 2) (end_idx - (start_idx + 2))
header_text request (some start_idx) none = substr request (start_idx + 2)
header_text request none (some end_idx) = substr_len request 1 (end_idx - 1)
header_text request none none = substr request 1

-- `processHeaders`.
unfoldable pub process_headers : Bytes → Request → Parsed Request
unfolding find substr_len substr read_headers split_lines
process_headers request r =
    let start_idx = find crlf request in
    let end_idx = find crlf_crlf request in
    let headers_str = or_throw (header_text request start_idx end_idx) in
    let with_headers = headers_str >>= λ text. read_headers (split_lines [] text) r in
    if same_index start_idx end_idx then parsed r else with_headers

-- `ParseRequest`, and `Parse` on a new request.
unfoldable pub parse_request : Bytes → Request → Parsed Request
unfolding process_request_line process_message_body process_headers
parse_request request r = do
  r₁ ← process_request_line request r
  r₂ ← process_message_body request r₁
  r₃ ← process_headers request r₂
  parsed (record r₃ { raw_request = request; headers = r₃.headers ++ r₃.header_fields })

unfoldable pub parse : Bytes → Parsed Request
unfolding parse_request
parse raw_request = parse_request raw_request new_request
