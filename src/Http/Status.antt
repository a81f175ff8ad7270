-- ===== src/Http/Status.antt =====
-- `httpserv_http_status_t` of include/http/status.h, and src/http/status.c. The type is an `int` in C:
-- the constants are a data type here, and the functions take any number.
pub mod Table
use httpserv.Prelude.{
  ℕ, ◌≡◌, Bool, true, false, Option, none, some, List, [], ◌∷◌, ◌==◌, if◌then◌else◌, Bytes, codes,
  String,
}

pub data Status : Type 0 where
  continue switching_protocols ok created accepted non_authoritative_information no_content : Status
  reset_content partial_content multiple_choices moved_permanently found see_other : Status
  not_modified temporary_redirect permanent_redirect bad_request unauthorized forbidden : Status
  not_found method_not_allowed not_acceptable proxy_authentication_required request_timeout : Status
  conflict gone lenght_required precondition_failed payload_too_large uri_too_long : Status
  unsupported_media_type range_not_satisfiable expectation_failed im_a_teapot : Status
  upgrade_required precondition_required too_many_requests request_header_fields_too_large : Status
  unavailable_for_legal_reasons internal_server_error not_implemented bad_gateway : Status
  service_unavailable gateway_timeout http_version_not_supported variant_also_negotiates : Status
  not_extended network_authentication_required : Status

-- The value of each constant of the enum.
unfoldable pub to_int : Status → ℕ
to_int continue = 100
to_int switching_protocols = 101
to_int ok = 200
to_int created = 201
to_int accepted = 202
to_int non_authoritative_information = 203
to_int no_content = 204
to_int reset_content = 205
to_int partial_content = 206
to_int multiple_choices = 300
to_int moved_permanently = 301
to_int found = 302
to_int see_other = 303
to_int not_modified = 304
to_int temporary_redirect = 307
to_int permanent_redirect = 308
to_int bad_request = 400
to_int unauthorized = 401
to_int forbidden = 403
to_int not_found = 404
to_int method_not_allowed = 405
to_int not_acceptable = 406
to_int proxy_authentication_required = 407
to_int request_timeout = 408
to_int conflict = 409
to_int gone = 410
to_int lenght_required = 411
to_int precondition_failed = 412
to_int payload_too_large = 413
to_int uri_too_long = 414
to_int unsupported_media_type = 415
to_int range_not_satisfiable = 416
to_int expectation_failed = 417
to_int im_a_teapot = 418
to_int upgrade_required = 426
to_int precondition_required = 428
to_int too_many_requests = 429
to_int request_header_fields_too_large = 431
to_int unavailable_for_legal_reasons = 451
to_int internal_server_error = 500
to_int not_implemented = 501
to_int bad_gateway = 502
to_int service_unavailable = 503
to_int gateway_timeout = 504
to_int http_version_not_supported = 505
to_int variant_also_negotiates = 506
to_int not_extended = 510
to_int network_authentication_required = 511

-- The cases of the switch.
abbrev pub cases : List (ℕ × String)
cases =
    (100, "Continue")
    ∷ (101, "Switching Protocols")
    ∷ (200, "OK")
    ∷ (201, "Created")
    ∷ (202, "Accepted")
    ∷ (203, "Non-Authoritative Information")
    ∷ (204, "No Content")
    ∷ (205, "Reset Content")
    ∷ (206, "Partial Content")
    ∷ (300, "Multiple Choices")
    ∷ (301, "Moved Permanently")
    ∷ (302, "Found")
    ∷ (303, "See Other")
    ∷ (304, "Not Modified")
    ∷ (307, "Temporary Redirect")
    ∷ (308, "Permanent Redirect")
    ∷ (400, "Bad Request")
    ∷ (401, "Unauthorized")
    ∷ (403, "Forbidden")
    ∷ (404, "Not Found")
    ∷ (405, "Method Not Allowed")
    ∷ (406, "Not Acceptable")
    ∷ (407, "Proxy Authentication Required")
    ∷ (408, "Request Timeout")
    ∷ (409, "Conflict")
    ∷ (410, "Gone")
    ∷ (411, "Lenght Required")
    ∷ (412, "Precondition Failed")
    ∷ (413, "Payload Too Large")
    ∷ (414, "URI Too Long")
    ∷ (415, "Unsupported Media Type")
    ∷ (416, "Range Not Satisfiable")
    ∷ (417, "Expectation Failed")
    ∷ (418, "I'm a teapot")
    ∷ (426, "Upgrade Required")
    ∷ (428, "Precondition Required")
    ∷ (429, "Too Many Requests")
    ∷ (431, "Request Header Fields Too Large")
    ∷ (451, "Unavailable For Legal Reasons")
    ∷ (500, "Internal Server Error")
    ∷ (501, "Not Implemented")
    ∷ (502, "Bad Gateway")
    ∷ (503, "Service Unavailable")
    ∷ (504, "Gateway Timeout")
    ∷ (505, "HTTP Version Not Supported")
    ∷ (506, "Variant Also Negotiates")
    ∷ (510, "Not Extended")
    ∷ (511, "Network Authentication Required")
    ∷ []

-- A switch takes the case with the value, or the default.
unfoldable pub switch : List (ℕ × String) → ℕ → Option Bytes
switch [] n = none
switch ((k, text) ∷ rest) n = if n == k then some (codes text) else switch rest n

unfoldable pub strstatus : ℕ → Option Bytes
unfolding switch
strstatus status = switch cases status

-- `httpserv_http_strstatus(status) != NULL`
unfoldable pub status_valid : ℕ → Bool
unfolding strstatus
status_valid status = elim (strstatus status) [ none ↦ false | some text ↦ true ]
