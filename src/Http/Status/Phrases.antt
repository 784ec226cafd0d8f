-- ===== src/Http/Status/Phrases.antt =====
-- http/http.cc and http/httpResponse.h: the enumeration of the codes beside the switch over the phrases.
use caviar_hacker_grid.Base.{
  ℕ, Bool, true, false, List, [], ◌∷◌, none, ◌≡◌, ◌∙◌, refl, ap, arith, ◌==◌, ◌↔◌, ◌≢◌, ◌⊎◌, ◌&&◌,
  Bool-cases, inl, inr,
}
use caviar_hacker_grid.Base.Text.{Bytes, codes, equal, equal_iff}
use caviar_hacker_grid.Http.Status.{
  ResponseCode, number, phrases, switch, get_default, continue, switching_protocols, processing, ok,
  created, accepted, non_auth_info, no_content, reset_content, partial_content, multi_status,
  already_reported, im_used, multiple_choices, moved_permanently, found, see_other, not_modified,
  use_proxy, temporary_redirect, permanent_redirect, bad_request, unauthorized, payment_required,
  forbidden, not_found, method_not_allowed, not_acceptable, proxy_authentication_required,
  request_timeout, conflict, gone, length_required, precondition_failed, payload_too_large,
  uri_too_large, unsupported_media_type, range_not_satisfiable, expectation_failed,
  misdirected_request, unprocessable_entity, locked, failed_dependency, upgrade_required,
  precondition_required, too_many_requests, request_header_fields_too_large, legal_reasons,
  internal_server_error, not_implemented, bad_gateway, service_unavailable, gateway_timeout,
  unsupported_http, variant_also_negotiates, insufficient_storage, loop_detected, not_extended,
  network_auth_req,
}

-- The enumerator behind a number.
pub record HasCode (n : ℕ) : Type 0 where
  pub code : ResponseCode
  pub same : number code ≡ n

abbrev all_codes : List ResponseCode
all_codes =
    continue ∷ switching_protocols ∷ processing ∷ ok ∷ created ∷ accepted ∷ non_auth_info
    ∷ no_content ∷ reset_content ∷ partial_content ∷ multi_status ∷ already_reported ∷ im_used
    ∷ multiple_choices ∷ moved_permanently ∷ found ∷ see_other ∷ not_modified ∷ use_proxy
    ∷ temporary_redirect ∷ permanent_redirect ∷ bad_request ∷ unauthorized ∷ payment_required
    ∷ forbidden ∷ not_found ∷ method_not_allowed ∷ not_acceptable ∷ proxy_authentication_required
    ∷ request_timeout ∷ conflict ∷ gone ∷ length_required ∷ precondition_failed ∷ payload_too_large
    ∷ uri_too_large ∷ unsupported_media_type ∷ range_not_satisfiable ∷ expectation_failed
    ∷ misdirected_request ∷ unprocessable_entity ∷ locked ∷ failed_dependency ∷ upgrade_required
    ∷ precondition_required ∷ too_many_requests ∷ request_header_fields_too_large ∷ legal_reasons
    ∷ internal_server_error ∷ not_implemented ∷ bad_gateway ∷ service_unavailable ∷ gateway_timeout
    ∷ unsupported_http ∷ variant_also_negotiates ∷ insufficient_storage ∷ loop_detected
    ∷ not_extended ∷ network_auth_req ∷ []

AreCoded : List (ℕ × Bytes) → Type 0
AreCoded [] = Unit
AreCoded ((n, phrase) ∷ cases) = HasCode n × AreCoded cases

-- Whether the codes are, in order, those of the cases.
unfoldable agree : List ResponseCode → List (ℕ × Bytes) → Bool
unfolding number
agree [] [] = true
agree [] (p ∷ ps) = false
agree (c ∷ cs) [] = false
agree (c ∷ cs) ((n, phrase) ∷ ps) = number c == n && agree cs ps

agree-AreCoded : (cs : List ResponseCode) (ps : List (ℕ × Bytes)) → agree cs ps ≡ true → AreCoded ps
unfolding agree AreCoded
agree-AreCoded cs [] e = tt
agree-AreCoded [] (p ∷ ps) e = ground (arith, e)
agree-AreCoded (c ∷ cs) ((n, phrase) ∷ ps) e =
    (record { code = c; same = ground (arith, e) }, agree-AreCoded cs ps (ground (arith, e)))

phrases-AreCoded : AreCoded phrases
unfolding agree
phrases-AreCoded = agree-AreCoded all_codes phrases refl

switch-HasCode : (n : ℕ) (ps : List (ℕ × Bytes)) → AreCoded ps → (switch n ps ≡ none) ⊎ HasCode n
unfolding switch AreCoded
switch-HasCode n [] h = inl refl
switch-HasCode n ((c, phrase) ∷ ps) (h, i) = elim (Bool-cases (n == c)) [
  | inl e ↦ inr (record { code = h.code; same = h.same ∙ ground (arith, e) })
  | inr e ↦ rw e (switch-HasCode n ps i)
]

-- Whether a code has no phrase of its own.
abbrev is_unassigned : ℕ → Bool
is_unassigned n = equal (get_default n) (codes "Unassigned")

number-is_assigned : (code : ResponseCode) → is_unassigned (number code) ≡ false
unfolding get_default switch number equal
number-is_assigned continue = refl
number-is_assigned switching_protocols = refl
number-is_assigned processing = refl
number-is_assigned ok = refl
number-is_assigned created = refl
number-is_assigned accepted = refl
number-is_assigned non_auth_info = refl
number-is_assigned no_content = refl
number-is_assigned reset_content = refl
number-is_assigned partial_content = refl
number-is_assigned multi_status = refl
number-is_assigned already_reported = refl
number-is_assigned im_used = refl
number-is_assigned multiple_choices = refl
number-is_assigned moved_permanently = refl
number-is_assigned found = refl
number-is_assigned see_other = refl
number-is_assigned not_modified = refl
number-is_assigned use_proxy = refl
number-is_assigned temporary_redirect = refl
number-is_assigned permanent_redirect = refl
number-is_assigned bad_request = refl
number-is_assigned unauthorized = refl
number-is_assigned payment_required = refl
number-is_assigned forbidden = refl
number-is_assigned not_found = refl
number-is_assigned method_not_allowed = refl
number-is_assigned not_acceptable = refl
number-is_assigned proxy_authentication_required = refl
number-is_assigned request_timeout = refl
number-is_assigned conflict = refl
number-is_assigned gone = refl
number-is_assigned length_required = refl
number-is_assigned precondition_failed = refl
number-is_assigned payload_too_large = refl
number-is_assigned uri_too_large = refl
number-is_assigned unsupported_media_type = refl
number-is_assigned range_not_satisfiable = refl
number-is_assigned expectation_failed = refl
number-is_assigned misdirected_request = refl
number-is_assigned unprocessable_entity = refl
number-is_assigned locked = refl
number-is_assigned failed_dependency = refl
number-is_assigned upgrade_required = refl
number-is_assigned precondition_required = refl
number-is_assigned too_many_requests = refl
number-is_assigned request_header_fields_too_large = refl
number-is_assigned legal_reasons = refl
number-is_assigned internal_server_error = refl
number-is_assigned not_implemented = refl
number-is_assigned bad_gateway = refl
number-is_assigned service_unavailable = refl
number-is_assigned gateway_timeout = refl
number-is_assigned unsupported_http = refl
number-is_assigned variant_also_negotiates = refl
number-is_assigned insufficient_storage = refl
number-is_assigned loop_detected = refl
number-is_assigned not_extended = refl
number-is_assigned network_auth_req = refl

-- A number has a reason phrase other than "Unassigned" just when it is the value of an enumerator of
-- ResponseCode.
pub get_default_iff : (n : ℕ) → get_default n ≢ codes "Unassigned" ↔ HasCode n
unfolding get_default
get_default_iff n = (
  λ named. elim (switch-HasCode n phrases phrases-AreCoded) [
    | inl e ↦ ground (arith, named (rw (get_default, e) refl))
    | inr h ↦ h
  ],
  λ h e. ground (
    arith,
    number-is_assigned h.code,
    h.same,
    equal_iff (get_default n) (codes "Unassigned"),
    ap is_unassigned h.same,
    e,
  ),
)
