-- ===== src/Handlers/Files/Serving.antt =====
-- What StaticHandler and MarkdownHandler answer, by the URI and the files.
use caviar_hacker_grid.Base.{
  false, ◌++◌, none, some, ◌≡◌, subst, sym, ap, ◌∙◌, ◌⊎◌, inl, inr, Bool-cases, Option-cases,
  length, drop,
}
use caviar_hacker_grid.Base.Run.{Run}
use caviar_hacker_grid.Base.StdMap.Keys.{text_order}
use caviar_hacker_grid.Base.Text.{Bytes, codes, c_str, starts_with, starts_with_split}
use caviar_hacker_grid.Handlers.{Status, ok, file_not_found, bad_request}
use caviar_hacker_grid.Handlers.Files.{
  FileSystem, file_to_string, add_static_type, handle_static, handle_markdown, static_answer, serve,
  markdown_answer,
}
use caviar_hacker_grid.Http.Response.{Response, set_status, set_body}
use caviar_hacker_grid.Http.Status.{ResponseCode}
use caviar_hacker_grid.Handlers.Files.Answers.{
  Carries, not_found_Carries, bad_request_Carries, serve_outside, serve_file, serve_missing,
  static_type, markdown_body, markdown_type, add_static_type_lem, add_markdown_type_lem,
}

-- The answer to a URI outside the prefix, to one that names no file, and to one that names a file, which
-- has a body by its path and its text, and a type by its path.
abbrev pub IsFileAnswer :
    FileSystem
    → Bytes
    → Bytes
    → Response
    → (Bytes → Bytes → Bytes)
    → (Bytes → Bytes)
    → Bytes
    → Run (Status × Response)
    → Type 0
IsFileAnswer files uri_prefix root_path r body_of type_of uri answer =
    ((starts_with uri_prefix uri ≡ false)
      × Carries answer bad_request 400 r.body (codes "text/html"))
    ⊎ ((rest : Bytes) × (uri ≡ uri_prefix ++ rest)
        × (((files (c_str (root_path ++ rest)) ≡ none)
              × Carries answer file_not_found 404 r.body (codes "text/plain"))
            ⊎ ((text : Bytes) × (files (c_str (root_path ++ rest)) ≡ some text)
                × Carries answer ok 200 (body_of (root_path ++ rest) text)
                    (type_of (root_path ++ rest)))))

module _ (files : FileSystem) (uri_prefix root_path : Bytes) (r : Response) where
  -- What both handlers do, from how they answer for a file that is there.
  serve-IsFileAnswer :
      (answer : Bytes → Response → Response) (body_of : Bytes → Bytes → Bytes)
      (type_of : Bytes → Bytes)
      → ((rest text : Bytes)
          → files (c_str (root_path ++ rest)) ≡ some text
          → Carries
              (serve files uri_prefix root_path (uri_prefix ++ rest) answer r)
              ok
              200
              (body_of (root_path ++ rest) text)
              (type_of (root_path ++ rest)))
      → (uri : Bytes)
      → IsFileAnswer files uri_prefix root_path r body_of type_of uri
          (serve files uri_prefix root_path uri answer r)
  serve-IsFileAnswer answer body_of type_of served uri =
      elim (Bool-cases (starts_with uri_prefix uri)) [
        | inr e ↦ inl (
          e,
          subst (λ a. Carries a bad_request 400 r.body (codes "text/html"))
              (sym (serve_outside files uri_prefix root_path answer r uri e))
              (bad_request_Carries r),
        )
        | inl e ↦
            let rest = drop (length uri_prefix) uri in
            let split = starts_with_split uri_prefix uri e in
            let answered = λ (u : Bytes). serve files uri_prefix root_path u answer r in
            inr (
              rest,
              split,
              elim (Option-cases (files (c_str (root_path ++ rest)))) [
                | inl none_there ↦
                    let missing =
                      serve_missing files uri_prefix root_path answer r rest none_there in
                    inl (
                      none_there,
                      subst (λ a. Carries a file_not_found 404 r.body (codes "text/plain"))
                          (sym (ap answered split ∙ missing)) (not_found_Carries r),
                    )
                | inr (text, there) ↦ inr (
                  text,
                  there,
                  subst
                      (λ u.
                        Carries (answered u) ok 200 (body_of (root_path ++ rest) text)
                          (type_of (root_path ++ rest)))
                      (sym split) (served rest text there),
                )
              ],
            )
      ]

  -- A URI that goes on behind the prefix with the name of a file under the root path is answered
  -- with 200, the bytes of the file, and the content type of its extension. The name is not looked
  -- into: it may hold `..`.
  pub handle_static-file :
      (rest text : Bytes)
      → files (c_str (root_path ++ rest)) ≡ some text
      → Carries
          (handle_static files uri_prefix root_path (uri_prefix ++ rest) r)
          ok
          200
          text
          (static_type (root_path ++ rest))
  unfolding handle_static set_status
  handle_static-file rest text h =
      let path = root_path ++ rest in
      let typed = add_static_type_lem path (set_status ResponseCode.ok r) in
      record {
        response =
            set_body (file_to_string files path)
              (add_static_type path (set_status ResponseCode.ok r));
        returns = serve_file files uri_prefix root_path (static_answer files) r rest text h;
        has_code = typed.1;
        has_body = rw (file_to_string, h);
        has_type = typed.0;
      }

  -- StaticHandler answers every URI in one of three ways: one that does not begin with the prefix with
  -- 400; one that goes on behind the prefix with the name of no file under the root path with 404, both
  -- with the body left as it was; and one that goes on with the name of a file with 200, the bytes of the
  -- file and the content type of its extension. The name is not looked into: it may hold `..`.
  pub handle_static_lem :
      (uri : Bytes)
      → IsFileAnswer files uri_prefix root_path r
          (λ path text. text)
          static_type
          uri
          (handle_static files uri_prefix root_path uri r)
  unfolding handle_static
  handle_static_lem uri =
      serve-IsFileAnswer (static_answer files) (λ path text. text) static_type handle_static-file
        uri

  -- MarkdownHandler answers with the rendered text of a file whose extension is `md` in any case,
  -- under the type "html", and with any other file as StaticHandler does.
  pub handle_markdown-file :
      (render : Bytes → Bytes) (rest text : Bytes)
      → files (c_str (root_path ++ rest)) ≡ some text
      → Carries
          (handle_markdown render files uri_prefix root_path (uri_prefix ++ rest) r)
          ok
          200
          (markdown_body render (root_path ++ rest) text)
          (markdown_type (root_path ++ rest))
  unfolding handle_markdown set_status markdown_body
  handle_markdown-file render rest text h =
      let path = root_path ++ rest in
      let typed = add_markdown_type_lem path (set_status ResponseCode.ok r) in
      record {
        response = markdown_answer render files path r;
        returns =
            serve_file files uri_prefix root_path (markdown_answer render files) r rest text h;
        has_code = typed.1;
        has_body = rw (file_to_string, h);
        has_type = typed.0;
      }

  -- MarkdownHandler answers every URI in one of three ways: one that does not begin with the prefix with
  -- 400; one that goes on with the name of no file under the root path with 404, both with the body left
  -- as it was; and one that goes on with the name of a file with 200, with the rendered text under the
  -- type "html" if the extension is `md` in any case, and as StaticHandler does otherwise.
  pub handle_markdown_lem :
      (render : Bytes → Bytes) (uri : Bytes)
      → IsFileAnswer files uri_prefix root_path r
          (markdown_body render)
          markdown_type
          uri
          (handle_markdown render files uri_prefix root_path uri r)
  unfolding handle_markdown
  handle_markdown_lem render uri =
      serve-IsFileAnswer (markdown_answer render files) (markdown_body render) markdown_type
        (handle_markdown-file render) uri
