-- ===== src/Server/Session/Plain.antt =====
-- Handlers that neither call other programs nor wait: they answer every request.
use caviar_hacker_grid.Base.{
  ℕ, ◌++◌, some, ◌≡◌, inl, inr, refl, ap, sym, ◌∙◌, subst, Bool-cases, Option-cases, All, length,
  drop,
}
use caviar_hacker_grid.Base.Run.{Run, done, ◌>>=◌}
use caviar_hacker_grid.Base.StdMap.Keys.{text_order}
use caviar_hacker_grid.Base.Text.{Bytes, c_str, starts_with, starts_with_split}
use caviar_hacker_grid.Handlers.{
  Status, Handler, not_found_handler, echo_handler, blocking_handler, static_handler,
  markdown_handler, cloud_file_handler, proxy_handler, status_handler, server_status, wild,
  null_pointer,
}
use caviar_hacker_grid.Handlers.Cloud.{Host}
use caviar_hacker_grid.Handlers.Files.{
  FileSystem, serve, handle_static, handle_markdown, static_answer, markdown_answer,
}
use caviar_hacker_grid.Handlers.Files.Answers.{
  serve_outside, serve_file, serve_missing, not_found_Carries, bad_request_Carries,
  add_static_type_lem, add_markdown_type_lem,
}
use caviar_hacker_grid.Handlers.Table.{HandlerMap}
use caviar_hacker_grid.Handlers.Table.Longest.{IsRegistered, here, there}
use caviar_hacker_grid.Http.Request.{Request}
use caviar_hacker_grid.Handlers.Simple.{not_found_response, echo, add_content_type}
use caviar_hacker_grid.Handlers.StatusPage.{handle_status}
use caviar_hacker_grid.Http.Response.{set_body, Response, new_response, set_status}
use caviar_hacker_grid.Http.Status.{ResponseCode}
use caviar_hacker_grid.Server.Session.{Outside, Shared, handle_request}

-- Handlers that work on the request, the files and the counters alone.
abbrev pub IsPlain : Handler → Type 0
IsPlain not_found_handler = Unit
IsPlain echo_handler = Unit
IsPlain (static_handler uri_prefix root_path) = Unit
IsPlain (markdown_handler uri_prefix root_path) = Unit
IsPlain (status_handler server_status) = Unit
IsPlain _ = ⊥

abbrev pub ArePlain : HandlerMap → Type 0
ArePlain = All (λ entry. IsPlain entry.1)

pub registered-IsPlain :
    {path : Bytes} {h : Handler} {m : HandlerMap} → IsRegistered path h m → ArePlain m → IsPlain h
registered-IsPlain here (p, a) = p
registered-IsPlain (there r) (p, a) = registered-IsPlain r a

-- A response with a status code.
pub record Answers {ℓ} {A : Type ℓ} (m : Run A) (response : A → Response) : Type ℓ where
  pub value : A
  pub code : ℕ
  pub returns : m ≡ done value
  pub has_code : (response value).status_code ≡ some code

abbrev of_pair : Status × Response → Response
of_pair a = a.1

abbrev pub of_host : Host × (Status × Response) → Response
of_host a = a.1.1

serve-Answers :
    (files : FileSystem) (uri_prefix root_path uri : Bytes) (answer : Bytes → Response → Response)
    (r : Response)
    → ((path : Bytes) → (answer path r).status_code ≡ some 200)
    → Answers (serve files uri_prefix root_path uri answer r) of_pair
serve-Answers files uri_prefix root_path uri answer r h =
    elim (Bool-cases (starts_with uri_prefix uri)) [
      | inl e ↦
          let rest = drop (length uri_prefix) uri in
          let text = starts_with_split uri_prefix uri e in
          subst (λ u. Answers (serve files uri_prefix root_path u answer r) of_pair) (sym text)
            (elim (Option-cases (files (c_str (root_path ++ rest)))) [
              | inl missing ↦
                  let carries = not_found_Carries r in
                  record {
                    value = _;
                    code = 404;
                    returns =
                        serve_missing files uri_prefix root_path answer r rest missing
                        ∙ carries.returns;
                    has_code = carries.has_code;
                  }
              | inr (content, found) ↦ record {
                value = _;
                code = 200;
                returns = serve_file files uri_prefix root_path answer r rest content found;
                has_code = h (root_path ++ rest);
              }
            ])
      | inr e ↦
          let carries = bad_request_Carries r in
          record {
            value = _;
            code = 400;
            returns = serve_outside files uri_prefix root_path answer r uri e ∙ carries.returns;
            has_code = carries.has_code;
          }
    ]

unchanged-Answers :
    (host : Host) (m : Run (Status × Response))
    → Answers m of_pair
    → Answers (m >>= λ a. done (host, a)) of_host
unchanged-Answers host m a = record {
  value = (host, a.value);
  code = a.code;
  returns = ap (λ n. n >>= λ b. done (host, b)) a.returns;
  has_code = a.has_code;
}

pub handle_request-Answers :
    (outside : Outside) (h : Handler) (w : Shared) (request : Request)
    → IsPlain h
    → Answers (handle_request outside h w request new_response) of_host
unfolding handle_request handle_static handle_markdown not_found_response echo handle_status
    add_content_type set_status set_body
handle_request-Answers outside not_found_handler w request p = record {
  value = (w.host, not_found_response new_response);
  code = 404;
  returns = refl;
  has_code = refl;
}
handle_request-Answers outside echo_handler w request p = record {
  value = (w.host, echo request new_response);
  code = 200;
  returns = refl;
  has_code = refl;
}
handle_request-Answers outside (static_handler uri_prefix root_path) w request p =
    unchanged-Answers w.host _ (
      serve-Answers w.host.files uri_prefix root_path request.request_uri
        (static_answer w.host.files) new_response
        (λ path. (add_static_type_lem path (set_status ResponseCode.ok new_response)).1))
handle_request-Answers outside (markdown_handler uri_prefix root_path) w request p =
    unchanged-Answers w.host _ (
      serve-Answers w.host.files uri_prefix root_path request.request_uri
        (markdown_answer outside.render w.host.files) new_response
        (λ path. (add_markdown_type_lem path (set_status ResponseCode.ok new_response)).1))
handle_request-Answers outside (status_handler server_status) w request p =
    unchanged-Answers w.host _ (record { value = _; code = 200; returns = refl; has_code = refl })
handle_request-Answers outside (status_handler wild) w request p = absurd p
handle_request-Answers outside (status_handler null_pointer) w request p = absurd p
handle_request-Answers outside blocking_handler w request p = absurd p
handle_request-Answers outside (cloud_file_handler a b) w request p = absurd p
handle_request-Answers outside (proxy_handler a b c) w request p = absurd p
