-- ===== src/Http/Status.antt =====
-- http/http.cc and http/httpResponse.h: the status codes of Response::ResponseCode, the reason
-- phrases of http::reason_phrase and the range check of http::status_code.
pub mod Phrases
use caviar_hacker_grid.Base.{ℕ, ◌&&◌, List, [], ◌∷◌, Option, none, some, ltb, ◌==◌, if◌then◌else◌}
use caviar_hacker_grid.Base.Text.{Bytes, codes}

-- `enum Response::ResponseCode`.
pub data ResponseCode : Type 0 where
  continue : ResponseCode
  switching_protocols : ResponseCode
  processing : ResponseCode
  ok : ResponseCode
  created : ResponseCode
  accepted : ResponseCode
  non_auth_info : ResponseCode
  no_content : ResponseCode
  reset_content : ResponseCode
  partial_content : ResponseCode
  multi_status : ResponseCode
  already_reported : ResponseCode
  im_used : ResponseCode
  multiple_choices : ResponseCode
  moved_permanently : ResponseCode
  found : ResponseCode
  see_other : ResponseCode
  not_modified : ResponseCode
  use_proxy : ResponseCode
  temporary_redirect : ResponseCode
  permanent_redirect : ResponseCode
  bad_request : ResponseCode
  unauthorized : ResponseCode
  payment_required : ResponseCode
  forbidden : ResponseCode
  not_found : ResponseCode
  method_not_allowed : ResponseCode
  not_acceptable : ResponseCode
  proxy_authentication_required : ResponseCode
  request_timeout : ResponseCode
  conflict : ResponseCode
  gone : ResponseCode
  length_required : ResponseCode
  precondition_failed : ResponseCode
  payload_too_large : ResponseCode
  uri_too_large : ResponseCode
  unsupported_media_type : ResponseCode
  range_not_satisfiable : ResponseCode
  expectation_failed : ResponseCode
  misdirected_request : ResponseCode
  unprocessable_entity : ResponseCode
  locked : ResponseCode
  failed_dependency : ResponseCode
  upgrade_required : ResponseCode
  precondition_required : ResponseCode
  too_many_requests : ResponseCode
  request_header_fields_too_large : ResponseCode
  legal_reasons : ResponseCode
  internal_server_error : ResponseCode
  not_implemented : ResponseCode
  bad_gateway : ResponseCode
  service_unavailable : ResponseCode
  gateway_timeout : ResponseCode
  unsupported_http : ResponseCode
  variant_also_negotiates : ResponseCode
  insufficient_storage : ResponseCode
  loop_detected : ResponseCode
  not_extended : ResponseCode
  network_auth_req : ResponseCode

-- `static_cast<int>` of an enumerator.
unfoldable pub number : ResponseCode → ℕ
number continue = 100
number switching_protocols = 101
number processing = 102
number ok = 200
number created = 201
number accepted = 202
number non_auth_info = 203
number no_content = 204
number reset_content = 205
number partial_content = 206
number multi_status = 207
number already_reported = 208
number im_used = 226
number multiple_choices = 300
number moved_permanently = 301
number found = 302
number see_other = 303
number not_modified = 304
number use_proxy = 305
number temporary_redirect = 307
number permanent_redirect = 308
number bad_request = 400
number unauthorized = 401
number payment_required = 402
number forbidden = 403
number not_found = 404
number method_not_allowed = 405
number not_acceptable = 406
number proxy_authentication_required = 407
number request_timeout = 408
number conflict = 409
number gone = 410
number length_required = 411
number precondition_failed = 412
number payload_too_large = 413
number uri_too_large = 414
number unsupported_media_type = 415
number range_not_satisfiable = 416
number expectation_failed = 417
number misdirected_request = 421
number unprocessable_entity = 422
number locked = 423
number failed_dependency = 424
number upgrade_required = 426
number precondition_required = 428
number too_many_requests = 429
number request_header_fields_too_large = 431
number legal_reasons = 451
number internal_server_error = 500
number not_implemented = 501
number bad_gateway = 502
number service_unavailable = 503
number gateway_timeout = 504
number unsupported_http = 505
number variant_also_negotiates = 506
number insufficient_storage = 507
number loop_detected = 508
number not_extended = 510
number network_auth_req = 511

-- The cases of the switch in `reason_phrase::getDefault`.
abbrev pub phrases : List (ℕ × Bytes)
phrases =
    (100, codes "Continue")
    ∷ (101, codes "Switching Protocols")
    ∷ (102, codes "Processing")
    ∷ (200, codes "OK")
    ∷ (201, codes "Created")
    ∷ (202, codes "Accepted")
    ∷ (203, codes "Non-Authoritative Information")
    ∷ (204, codes "No Content")
    ∷ (205, codes "Reset Content")
    ∷ (206, codes "Partial Content")
    ∷ (207, codes "Multi-Status")
    ∷ (208, codes "Already Reported")
    ∷ (226, codes "IM Used")
    ∷ (300, codes "Multiple Choices")
    ∷ (301, codes "Moved Permanently")
    ∷ (302, codes "Found")
    ∷ (303, codes "See Other")
    ∷ (304, codes "Not Modified")
    ∷ (305, codes "Use Proxy")
    ∷ (307, codes "Temporary Redirect")
    ∷ (308, codes "Permanent Redirect")
    ∷ (400, codes "Bad Request")
    ∷ (401, codes "Unauthorized")
    ∷ (402, codes "Payment Required")
    ∷ (403, codes "Forbidden")
    ∷ (404, codes "Not Found")
    ∷ (405, codes "Method Not Allowed")
    ∷ (406, codes "Not Acceptable")
    ∷ (407, codes "Proxy Authentication Required")
    ∷ (408, codes "Request Time-out")
    ∷ (409, codes "Conflict")
    ∷ (410, codes "Gone")
    ∷ (411, codes "Length Required")
    ∷ (412, codes "Precondition Failed")
    ∷ (413, codes "Payload Too Large")
    ∷ (414, codes "URI Too Large")
    ∷ (415, codes "Unsupported Media Type")
    ∷ (416, codes "Range not satisfiable")
    ∷ (417, codes "Expectation Failed")
    ∷ (421, codes "Misdirected Request")
    ∷ (422, codes "Unprocessable Entity")
    ∷ (423, codes "Locked")
    ∷ (424, codes "Failed Dependency")
    ∷ (426, codes "Upgrade Required")
    ∷ (428, codes "Precondition Required")
    ∷ (429, codes "Too Many Requests")
    ∷ (431, codes "Request Header Fields Too Large")
    ∷ (451, codes "Unavailable For Legal Reasons")
    ∷ (500, codes "Internal Server Error")
    ∷ (501, codes "Not Implemented")
    ∷ (502, codes "Bad Gateway")
    ∷ (503, codes "Service Unavailable")
    ∷ (504, codes "Gateway Timeout")
    ∷ (505, codes "HTTP Version not supported")
    ∷ (506, codes "Variant Also Negotiates")
    ∷ (507, codes "Insufficient Storage")
    ∷ (508, codes "Loop Detected")
    ∷ (510, codes "Not Extended")
    ∷ (511, codes "Network Authentication Required")
    ∷ []

-- The first case that fits.
unfoldable pub switch : ℕ → List (ℕ × Bytes) → Option Bytes
switch code [] = none
switch code ((c, phrase) ∷ cases) = if code == c then some phrase else switch code cases

-- `reason_phrase::getDefault`.
unfoldable pub get_default : ℕ → Bytes
unfolding switch
get_default code = elim (switch code phrases) [ some phrase ↦ phrase | none ↦ codes "Unassigned" ]

-- `status_code::set`: the new value of `status_code_`, if the code is accepted.
unfoldable pub set_status_code : ℕ → Option ℕ
set_status_code code = if ltb 99 code && ltb code 600 then some code else none
