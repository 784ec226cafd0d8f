-- ===== src/Handlers/Files/Answers.antt =====
-- What a handler answers, by its parts, and how `serve` comes to an answer.
use caviar_hacker_grid.Base.{
  ℕ, false, not, [], ◌∷◌, ◌++◌, map, none, some, ◌≡◌, refl, arith, if◌then◌else◌, Bool-cases, inl,
  inr, Option-cases,
}
use caviar_hacker_grid.Base.Run.{Run, done}
use caviar_hacker_grid.Base.StdMap.{lookup}
use caviar_hacker_grid.Base.StdMap.Keys.{text_order}
use caviar_hacker_grid.Base.StdMap.Laws.{lookup-update_self}
use caviar_hacker_grid.Base.Text.{
  Bytes, codes, c_str, find, starts_with, starts_with-append, substr-length_append, equal, to_lower,
}
use caviar_hacker_grid.Handlers.{Status, ok, file_not_found, bad_request}
use caviar_hacker_grid.Handlers.Files.{
  FileSystem, file_exists, is_misplaced, bad_request_response, extension_of, add_static_type,
  add_markdown_type, is_markdown, serve, text_html,
}
use caviar_hacker_grid.Handlers.Simple.{not_found_response, add_content_type}
use caviar_hacker_grid.Http.Mime.{
  app_octet_stream, get_mime_type, content_type_as_string, ContentType, text_plain,
}
use caviar_hacker_grid.Http.Mime.Extensions.{get_mime_type-to_lower}
use caviar_hacker_grid.Http.Response.{Response, set_status, add_header}
use caviar_hacker_grid.Http.Status.{ResponseCode}

-- The prefix is found at the front exactly when the URI begins with it.
pub is_misplaced-eq-not : (p s : Bytes) → is_misplaced s p ≡ not (starts_with p s)
unfolding is_misplaced find
is_misplaced-eq-not p [] = ground arith
is_misplaced-eq-not p (c ∷ s) = ground arith

-- The answer carries this status, body and content type.
pub record Carries (answer : Run (Status × Response)) (status : Status) (code : ℕ)
    (body type : Bytes) : Type 0 where
  pub response : Response
  pub returns : answer ≡ done (status, response)
  pub has_code : response.status_code ≡ some code
  pub has_body : response.body ≡ body
  pub has_type : lookup (codes "Content-Type") response.http_headers ≡ some type

content_type_added :
    (type : ContentType) (r : Response)
    → (lookup (codes "Content-Type") (add_content_type type r).http_headers
        ≡ some (content_type_as_string type))
      × ((add_content_type type r).status_code ≡ r.status_code)
      × ((add_content_type type r).body ≡ r.body)
unfolding add_content_type add_header
content_type_added type r = (
  lookup-update_self (λ _. content_type_as_string type) (codes "Content-Type") r.http_headers,
  refl,
  refl,
)

pub not_found_Carries :
    (r : Response)
    → Carries (done (not_found_response r)) file_not_found 404 r.body (codes "text/plain")
unfolding not_found_response set_status content_type_as_string
not_found_Carries r =
    let (t, c, b) = content_type_added text_plain (set_status ResponseCode.not_found r) in
    record {
      response = add_content_type text_plain (set_status ResponseCode.not_found r);
      returns = refl;
      has_code = c;
      has_body = b;
      has_type = t;
    }

pub bad_request_Carries :
    (r : Response)
    → Carries (done (bad_request_response r)) bad_request 400 r.body (codes "text/html")
unfolding bad_request_response set_status content_type_as_string
bad_request_Carries r =
    let (t, c, b) = content_type_added text_html (set_status ResponseCode.bad_request r) in
    record {
      response = add_content_type text_html (set_status ResponseCode.bad_request r);
      returns = refl;
      has_code = c;
      has_body = b;
      has_type = t;
    }

module _ (files : FileSystem) (uri_prefix root_path : Bytes) (answer : Bytes → Response → Response)
    (r : Response) where
  pub serve_outside :
      (uri : Bytes)
      → starts_with uri_prefix uri ≡ false
      → serve files uri_prefix root_path uri answer r ≡ done (bad_request_response r)
  unfolding serve
  serve_outside uri h = rw (is_misplaced-eq-not uri_prefix uri, h)

  pub serve_file :
      (rest text : Bytes)
      → files (c_str (root_path ++ rest)) ≡ some text
      → serve files uri_prefix root_path (uri_prefix ++ rest) answer r
        ≡ done (ok, answer (root_path ++ rest) r)
  unfolding serve
  serve_file rest text h = rw (
    is_misplaced-eq-not uri_prefix (uri_prefix ++ rest),
    starts_with-append uri_prefix rest,
    substr-length_append uri_prefix rest,
    file_exists,
    h,
  )

  pub serve_missing :
      (rest : Bytes)
      → files (c_str (root_path ++ rest)) ≡ none
      → serve files uri_prefix root_path (uri_prefix ++ rest) answer r ≡ done (not_found_response r)
  unfolding serve
  serve_missing rest h = rw (
    is_misplaced-eq-not uri_prefix (uri_prefix ++ rest),
    starts_with-append uri_prefix rest,
    substr-length_append uri_prefix rest,
    file_exists,
    h,
  )

-- The content type of a static file: by what stands behind the last dot of its path.
unfoldable pub static_type : Bytes → Bytes
static_type path = elim (extension_of path) [
  | none ↦ codes "application/octet-stream"
  | some extension ↦ content_type_as_string (get_mime_type extension)
]

-- What stands for a file that MarkdownHandler serves, and its type.
unfoldable pub markdown_body : (Bytes → Bytes) → Bytes → Bytes → Bytes
markdown_body render path text = if is_markdown path then render text else text

unfoldable pub markdown_type : Bytes → Bytes
unfolding static_type
markdown_type path = if is_markdown path then codes "html" else static_type path

typed_and_coded :
    (type : ContentType) (r : Response)
    → (lookup (codes "Content-Type") (add_content_type type r).http_headers
        ≡ some (content_type_as_string type))
      × ((add_content_type type r).status_code ≡ r.status_code)
typed_and_coded type r = let (t, c, _) = content_type_added type r in (t, c)

pub add_static_type_lem :
    (path : Bytes) (r : Response)
    → (lookup (codes "Content-Type") (add_static_type path r).http_headers
        ≡ some (static_type path))
      × ((add_static_type path r).status_code ≡ r.status_code)
unfolding add_static_type static_type content_type_as_string
add_static_type_lem path r = elim (Option-cases (extension_of path)) [
  | inl e ↦ rw (add_static_type, static_type, e) (typed_and_coded app_octet_stream r)
  | inr (x, e) ↦ rw (add_static_type, static_type, e) (typed_and_coded (get_mime_type x) r)
]

pub add_markdown_type_lem :
    (path : Bytes) (r : Response)
    → (lookup (codes "Content-Type") (add_markdown_type path r).http_headers
        ≡ some (markdown_type path))
      × ((add_markdown_type path r).status_code ≡ r.status_code)
unfolding add_markdown_type markdown_type is_markdown content_type_as_string
add_markdown_type_lem path r = elim (Option-cases (extension_of path)) [
  | inl e ↦
      rw (add_markdown_type, markdown_type, is_markdown, static_type, e)
        (typed_and_coded app_octet_stream r)
  | inr (x, e) ↦ elim (Bool-cases (equal (map to_lower x) (codes "md"))) [
    | inl md ↦
        rw (add_markdown_type, markdown_type, is_markdown, static_type, e)
          (rw md
            (lookup-update_self (λ _. codes "html") (codes "Content-Type") r.http_headers, refl))
    | inr other ↦
        rw (add_markdown_type, markdown_type, is_markdown, static_type, e)
          (rw (other, get_mime_type-to_lower x) (typed_and_coded (get_mime_type x) r))
  ]
]
