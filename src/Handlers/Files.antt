-- ===== src/Handlers/Files.antt =====
-- handlers/file_handler.cc and markdown_handler.cc, with filesystem/file_opener.cc.
pub mod Answers
pub mod Serving
use caviar_hacker_grid.Base.{
  ℕ, ◌+◌, ◌==◌, Bool, true, false, not, List, [], ◌∷◌, ◌++◌, map, Option, none, some, if◌then◌else◌,
  length, drop,
}
use caviar_hacker_grid.Base.Run.{Run, done, or_throw, ◌>>=◌}
use caviar_hacker_grid.Base.Text.{Bytes, codes, equal, find, find_last_of, substr, to_lower, c_str}
use caviar_hacker_grid.Handlers.{Status, ok, bad_request}
use caviar_hacker_grid.Handlers.Simple.{add_content_type, not_found_response}
use caviar_hacker_grid.Http.Mime.{text_html, app_octet_stream, get_mime_type}
use caviar_hacker_grid.Http.Response.{Response, set_status, add_header, set_body}
use caviar_hacker_grid.Http.Status.{ResponseCode}

-- The regular files by their paths, with what they hold. The file system is not the program's.
abbrev pub FileSystem : Type 0
FileSystem = Bytes → Option Bytes

-- `FileIO::FileExists`.
unfoldable pub file_exists : FileSystem → Bytes → Bool
unfolding c_str
file_exists files fname = elim (files (c_str fname)) [ none ↦ false | some _ ↦ true ]

-- `FileIO::FileToString`: a file that cannot be read gives the empty string.
unfoldable pub file_to_string : FileSystem → Bytes → Bytes
unfolding c_str
file_to_string files fname = elim (files (c_str fname)) [ none ↦ [] | some text ↦ text ]

-- `FileIO::FileExtensionLocation`.
unfoldable pub file_extension_location : Bytes → Option ℕ
unfolding find_last_of
file_extension_location fname = find_last_of b'.' fname

-- `prefix_pos == npos || prefix_pos != 0`.
unfoldable pub is_misplaced : Bytes → Bytes → Bool
unfolding find
is_misplaced req_uri uri_prefix = elim (find uri_prefix req_uri) [
  | none ↦ true
  | some prefix_pos ↦ not (prefix_pos == 0)
]

-- The answer to a request that is not under the prefix.
unfoldable pub bad_request_response : Response → Status × Response
unfolding add_content_type set_status
bad_request_response r =
    (bad_request, add_content_type text_html (set_status ResponseCode.bad_request r))

-- The text behind the last dot.
abbrev pub extension_of : Bytes → Option Bytes
extension_of path = elim (file_extension_location path) [
  | none ↦ none
  | some index_of_extension ↦ some (drop (index_of_extension + 1) path)
]

-- The content type that `StaticHandler` sets.
unfoldable pub add_static_type : Bytes → Response → Response
unfolding file_extension_location add_content_type get_mime_type
add_static_type path r = elim (extension_of path) [
  | none ↦ add_content_type app_octet_stream r
  | some file_extension ↦ add_content_type (get_mime_type file_extension) r
]

-- The content type that `MarkdownHandler` sets.
unfoldable pub add_markdown_type : Bytes → Response → Response
unfolding file_extension_location add_content_type get_mime_type equal to_lower add_header
add_markdown_type path r = elim (extension_of path) [
  | none ↦ add_content_type app_octet_stream r
  | some file_extension ↦
      let lower = map to_lower file_extension in
      if not (equal lower (codes "md"))
      then add_content_type (get_mime_type lower) r
      else add_header (codes "Content-Type") (codes "html") r
]

-- `file_extension == "md"`.
unfoldable pub is_markdown : Bytes → Bool
unfolding file_extension_location equal to_lower
is_markdown path = elim (extension_of path) [
  | none ↦ false
  | some file_extension ↦ equal (map to_lower file_extension) (codes "md")
]

-- `HandleRequest` of both classes up to the file that is served: the path that the URI stands for.
-- `substr` of the prefix's length does not throw behind the test of the prefix.
unfoldable pub serve :
    FileSystem
    → Bytes
    → Bytes
    → Bytes
    → (Bytes → Response → Response)
    → Response
    → Run (Status × Response)
unfolding is_misplaced bad_request_response substr file_exists not_found_response
serve files uri_prefix root_path req_uri answer r =
    let serve_file = or_throw (substr req_uri (length uri_prefix)) >>= λ uri_no_prefix.
    let actual_uri = root_path ++ uri_no_prefix in
    if not (file_exists files actual_uri)
    then done (not_found_response r)
    else done (ok, answer actual_uri r) in
    if is_misplaced req_uri uri_prefix then done (bad_request_response r) else serve_file

-- What StaticHandler makes of a file that exists.
abbrev pub static_answer : FileSystem → Bytes → Response → Response
static_answer files path r =
    set_body (file_to_string files path) (add_static_type path (set_status ResponseCode.ok r))

-- `StaticHandler::HandleRequest`.
unfoldable pub handle_static :
    FileSystem → Bytes → Bytes → Bytes → Response → Run (Status × Response)
unfolding serve add_static_type file_to_string set_body set_status
handle_static files uri_prefix root_path req_uri =
    serve files uri_prefix root_path req_uri (static_answer files)

-- What MarkdownHandler makes of a file that exists; `render` is the library that turns Markdown
-- into HTML.
abbrev pub markdown_answer : (Bytes → Bytes) → FileSystem → Bytes → Response → Response
markdown_answer render files path r =
    let typed = add_markdown_type path (set_status ResponseCode.ok r) in
    let body = file_to_string files path in
    set_body (if is_markdown path then render body else body) typed

-- `MarkdownHandler::HandleRequest`.
unfoldable pub handle_markdown :
    (Bytes → Bytes) → FileSystem → Bytes → Bytes → Bytes → Response → Run (Status × Response)
unfolding serve add_markdown_type is_markdown file_to_string set_body set_status
handle_markdown render files uri_prefix root_path req_uri =
    serve files uri_prefix root_path req_uri (markdown_answer render files)
