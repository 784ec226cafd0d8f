-- ===== src/Handlers/Cloud.antt =====
-- handlers/cloud_file_handler.cc.
pub mod Names
pub mod Downloads
use caviar_hacker_grid.Base.{ℕ, suc, ◌+◌, ◌==◌, not, [], ◌++◌, none, some, if◌then◌else◌, length}
use caviar_hacker_grid.Base.Run.{Run, done, or_throw, ◌>>=◌}
use caviar_hacker_grid.Base.Text.{Bytes, codes, substr, equal}
use caviar_hacker_grid.Handlers.{Status, ok}
use caviar_hacker_grid.Handlers.Files.{
  FileSystem, file_to_string, extension_of, is_misplaced, bad_request_response,
}
use caviar_hacker_grid.Handlers.Simple.{add_content_type, not_found_response}
use caviar_hacker_grid.Http.Decimal.{to_decimal}
use caviar_hacker_grid.Http.Mime.{app_octet_stream, get_mime_type}
use caviar_hacker_grid.Http.Response.{Response, set_status, set_body}
use caviar_hacker_grid.Http.Status.{ResponseCode}

-- What the handler reads and changes beside the response: the files, and `m_downloads_counter`,
-- which all handlers of the class share.
pub record Host : Type 0 where
  pub files : FileSystem
  pub downloads : ℕ

-- `generateName`: the name, with the counter behind the lock already incremented.
unfoldable pub generate_name : Bytes → Bytes → ℕ → Bytes
unfolding to_decimal
generate_name file_prefix extension counter = file_prefix ++ (to_decimal counter ++ extension)

-- `file_extension`, which is empty where there is no dot.
abbrev pub extension_or_empty : Bytes → Bytes
extension_or_empty file_key = elim (extension_of file_key) [
  | none ↦ []
  | some file_extension ↦ file_extension
]

-- The command that runs the S3 script.
unfoldable pub download_command : Bytes → Bytes → Bytes → Bytes
download_command bucket_name file_key download_name =
    codes "./S3/s3_get_file.py"
    ++ (codes " " ++ (bucket_name ++ (codes " " ++ (file_key ++ (codes " " ++ download_name)))))

unfoldable pub add_cloud_type : Bytes → Response → Response
unfolding add_content_type get_mime_type equal
add_cloud_type file_extension r =
    if equal file_extension []
    then add_content_type app_octet_stream r
    else add_content_type (get_mime_type file_extension) r

-- `std::system` of a command: its result, and the files behind it.
module _ (system : Bytes → FileSystem → ℕ × FileSystem) where
  -- The part behind `generateName`.
  unfoldable pub fetch : Bytes → Bytes → Bytes → Host → Response → Host × (Status × Response)
  unfolding file_to_string set_body set_status add_cloud_type not_found_response download_command
  fetch bucket_name file_key download_name host r =
      let (ret, files) = system (download_command bucket_name file_key download_name) host.files in
      let body = file_to_string files download_name in
      let answer =
        add_cloud_type (extension_or_empty file_key)
          (set_body body (set_status ResponseCode.ok r)) in
      let (ret2, cleaned) = system (codes "rm " ++ download_name) files in
      if not (ret == 0)
      then (record host { files = files }, not_found_response r)
      else (record host { files = cleaned }, (ok, answer))

  -- `HandleRequest`.
  unfoldable pub handle_cloud :
      Bytes → Bytes → Bytes → Host → Response → Run (Host × (Status × Response))
  unfolding fetch is_misplaced bad_request_response substr generate_name
  handle_cloud uri_prefix bucket_name req_uri host r =
      let counter = suc host.downloads in
      let named = record host { downloads = counter } in
      let serve_key = or_throw (substr req_uri (length uri_prefix + 1)) >>= λ file_key.
      let download_name =
        generate_name (codes "remote_file") (extension_or_empty file_key) counter in
      done (fetch bucket_name file_key download_name named r) in
      if is_misplaced req_uri uri_prefix then done (host, bad_request_response r) else serve_key
