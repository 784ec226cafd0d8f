-- ===== src/Handlers/Cloud/Downloads.antt =====
-- A download from the cloud, with a script and an `rm` that work.
use caviar_hacker_grid.Base.{ℕ, suc, Bool, List, [], ◌∷◌, ◌++◌, none, some, ◌==◌, if◌then◌else◌}
use caviar_hacker_grid.Base.Text.{Bytes, None, codes, equal}
use caviar_hacker_grid.Handlers.Cloud.{Host, generate_name, extension_or_empty}
use caviar_hacker_grid.Handlers.Files.{FileSystem}
use caviar_hacker_grid.Http.Decimal.{to_decimal}
use caviar_hacker_grid.Base.StdMap.{assign}
use caviar_hacker_grid.Base.StdMap.Keys.{text_order}
use caviar_hacker_grid.Http.Mime.{get_mime_type, content_type_as_string}
use caviar_hacker_grid.Http.Response.{Response}

-- A file written, and a file removed.
abbrev pub with_file : Bytes → Bytes → FileSystem → FileSystem
with_file name text files path = if equal path name then some text else files path

abbrev pub without_file : Bytes → FileSystem → FileSystem
without_file name files path = if equal path name then none else files path

-- The name under which a key is downloaded.
abbrev name_of : Bytes → Host → Bytes
name_of key host = generate_name (codes "remote_file") (extension_or_empty key) (suc host.downloads)

abbrev pub is_dot : ℕ → Bool
is_dot c = c == b'.'

-- What stands behind the last dot of a key; nothing where there is no dot.
pub data IsExtension : Bytes → Bytes → Type 0 where
  no_dot : (key : Bytes) → None is_dot key → IsExtension key []
  behind_dot :
      (stem extension : Bytes)
      → None is_dot extension
      → IsExtension (stem ++ b'.' ∷ extension) extension

-- The words of a command.
abbrev pub words : List Bytes → Bytes
words [] = []
words (w ∷ []) = w
words (w ∷ v ∷ ws) = w ++ (codes " " ++ words (v ∷ ws))

-- The name of the file that a download is written to.
abbrev pub remote_name : Bytes → Host → Bytes
remote_name extension host = codes "remote_file" ++ (to_decimal (suc host.downloads) ++ extension)

-- The content type for an extension.
abbrev pub type_of : Bytes → Bytes
type_of [] = codes "application/octet-stream"
type_of (c ∷ extension) = content_type_as_string (get_mime_type (c ∷ extension))

-- The reply with the content of a bucket.
abbrev pub downloaded : Bytes → Bytes → Response → Response
downloaded extension content r = record r {
  reason_phrase = codes "OK";
  status_code = some 200;
  http_headers = assign (codes "Content-Type") (type_of extension) r.http_headers;
  body = content;
}
