-- ===== src/Http/Utils/Tables.antt =====
-- The tables of HttpUtils: src/http/HttpUtils.cpp, ParseStatusCode, ParseStatusMessage,
-- StatusCodeToString. A table is an association list; its keys are distinct.
use http_nest.Prelude.{ℕ, List, [], ◌∷◌, ◌==◌, if◌then◌else◌, Bytes, codes}
use http_nest.Http.Types.{HttpStatusCode}

-- `find` in an `unordered_map` with `int32_t` keys, and the value found or the default.
unfoldable pub lookup_or {ℓ} : {A : Type ℓ} → ℕ → List (ℕ × A) → A → A
lookup_or n [] default = default
lookup_or n ((k, a) ∷ table) default = if k == n then a else lookup_or n table default

unfoldable pub status_codes : List (ℕ × HttpStatusCode)
status_codes =
    (0, HttpStatusCode.unknown)
    ∷ (100, HttpStatusCode.continue)
    ∷ (101, HttpStatusCode.switching_protocols)
    ∷ (200, HttpStatusCode.ok)
    ∷ (201, HttpStatusCode.created)
    ∷ (202, HttpStatusCode.accepted)
    ∷ (203, HttpStatusCode.non_authoritative_information)
    ∷ (204, HttpStatusCode.no_content)
    ∷ (205, HttpStatusCode.reset_content)
    ∷ (206, HttpStatusCode.partial_content)
    ∷ (300, HttpStatusCode.multiple_choices)
    ∷ (301, HttpStatusCode.moved_permanently)
    ∷ (302, HttpStatusCode.found)
    ∷ (303, HttpStatusCode.see_other)
    ∷ (304, HttpStatusCode.not_modified)
    ∷ (305, HttpStatusCode.use_proxy)
    ∷ (307, HttpStatusCode.temporary_redirect)
    ∷ (308, HttpStatusCode.permanent_redirect)
    ∷ (400, HttpStatusCode.bad_request)
    ∷ (401, HttpStatusCode.unauthorized)
    ∷ (402, HttpStatusCode.payment_required)
    ∷ (403, HttpStatusCode.forbidden)
    ∷ (404, HttpStatusCode.not_found)
    ∷ (405, HttpStatusCode.method_not_allowed)
    ∷ (406, HttpStatusCode.not_acceptable)
    ∷ (407, HttpStatusCode.proxy_authentication_required)
    ∷ (408, HttpStatusCode.request_timeout)
    ∷ (409, HttpStatusCode.conflict)
    ∷ (410, HttpStatusCode.gone)
    ∷ (411, HttpStatusCode.length_required)
    ∷ (412, HttpStatusCode.precondition_failed)
    ∷ (413, HttpStatusCode.request_entity_too_large)
    ∷ (414, HttpStatusCode.request_uri_too_large)
    ∷ (415, HttpStatusCode.unsupported_media_type)
    ∷ (416, HttpStatusCode.requested_range_not_satisfiable)
    ∷ (417, HttpStatusCode.expectation_failed)
    ∷ (418, HttpStatusCode.im_a_teapot)
    ∷ (421, HttpStatusCode.misdirected_request)
    ∷ (425, HttpStatusCode.too_early)
    ∷ (426, HttpStatusCode.upgrade_required)
    ∷ (428, HttpStatusCode.precondition_required)
    ∷ (429, HttpStatusCode.too_many_requests)
    ∷ (431, HttpStatusCode.request_header_fields_too_large)
    ∷ (451, HttpStatusCode.unavailable_for_legal_reasons)
    ∷ (500, HttpStatusCode.internal_server_error)
    ∷ (501, HttpStatusCode.not_implemented)
    ∷ (502, HttpStatusCode.bad_gateway)
    ∷ (503, HttpStatusCode.service_unavailable)
    ∷ (504, HttpStatusCode.gateway_timeout)
    ∷ (505, HttpStatusCode.http_version_not_supported)
    ∷ (510, HttpStatusCode.not_extended)
    ∷ []

unfoldable pub status_messages : List (ℕ × Bytes)
status_messages =
    (0, codes "unknown")
    ∷ (100, codes "Continue")
    ∷ (101, codes "Switching Protocols")
    ∷ (200, codes "OK")
    ∷ (201, codes "Created")
    ∷ (202, codes "Accepted")
    ∷ (203, codes "Non Authoritative Information")
    ∷ (204, codes "No Content")
    ∷ (205, codes "Reset Content")
    ∷ (206, codes "Partial Content")
    ∷ (300, codes "Multiple Choices")
    ∷ (301, codes "Moved Permanently")
    ∷ (302, codes "Found")
    ∷ (303, codes "See Other")
    ∷ (304, codes "Not Modified")
    ∷ (305, codes "Use Proxy")
    ∷ (307, codes "Temporary Redirect")
    ∷ (308, codes "Permanent Redirect")
    ∷ (400, codes "Bad Request")
    ∷ (401, codes "Unauthorized")
    ∷ (402, codes "Payment Required")
    ∷ (403, codes "Forbidden")
    ∷ (404, codes "Not Found")
    ∷ (405, codes "Method Not Allowed")
    ∷ (406, codes "Not Acceptable")
    ∷ (407, codes "Proxy Authentication Required")
    ∷ (408, codes "Request Timeout")
    ∷ (409, codes "Conflict")
    ∷ (410, codes "Gone")
    ∷ (411, codes "Length Required")
    ∷ (412, codes "Precondition Failed")
    ∷ (413, codes "Request Entity Too Large")
    ∷ (414, codes "Request URI Too Large")
    ∷ (415, codes "Unsupported Media Type")
    ∷ (416, codes "Requested Range Not Satisfiable")
    ∷ (417, codes "Expectation Failed")
    ∷ (418, codes "Im A Teapot")
    ∷ (421, codes "Misdirected Request")
    ∷ (425, codes "Too Early")
    ∷ (426, codes "Upgrade Required")
    ∷ (428, codes "Precondition Required")
    ∷ (429, codes "Too Many Requests")
    ∷ (431, codes "Request Header Fields Too Large")
    ∷ (451, codes "Unavailable For Legal Reasons")
    ∷ (500, codes "Internal Server Error")
    ∷ (501, codes "Not Implemented")
    ∷ (502, codes "Bad Gateway")
    ∷ (503, codes "Service Unavailable")
    ∷ (504, codes "Gateway Timeout")
    ∷ (505, codes "HTTP Version Not Supported")
    ∷ (510, codes "Not Extended")
    ∷ []

-- The cases of the switch of `StatusCodeToString`.
unfoldable pub status_texts : List (ℕ × Bytes)
status_texts =
    (100, codes "Continue")
    ∷ (101, codes "Switching Protocols")
    ∷ (200, codes "OK")
    ∷ (201, codes "Created")
    ∷ (202, codes "Accepted")
    ∷ (203, codes "Non-Authoritative Information")
    ∷ (204, codes "No Content")
    ∷ (205, codes "Reset Content")
    ∷ (206, codes "Partial Content")
    ∷ (300, codes "Multiple Choices")
    ∷ (301, codes "Moved Permanently")
    ∷ (302, codes "Found")
    ∷ (303, codes "See Other")
    ∷ (304, codes "Not Modified")
    ∷ (305, codes "Use Proxy")
    ∷ (307, codes "Temporary Redirect")
    ∷ (308, codes "Permanent Redirect")
    ∷ (400, codes "Bad Request")
    ∷ (401, codes "Unauthorized")
    ∷ (402, codes "Payment Required")
    ∷ (403, codes "Forbidden")
    ∷ (404, codes "Not Found")
    ∷ (405, codes "Method Not Allowed")
    ∷ (406, codes "Not Acceptable")
    ∷ (407, codes "Proxy Authentication Required")
    ∷ (408, codes "Request Time-out")
    ∷ (409, codes "Conflict")
    ∷ (410, codes "Gone")
    ∷ (411, codes "Length Required")
    ∷ (412, codes "Precondition Failed")
    ∷ (413, codes "Request Entity Too Large")
    ∷ (414, codes "Request-URI Too Large")
    ∷ (415, codes "Unsupported Media Type")
    ∷ (416, codes "Requested Range Not Satisfiable")
    ∷ (417, codes "Expectation Failed")
    ∷ (418, codes "I'm a Teapot")
    ∷ (421, codes "Misdirected Request")
    ∷ (425, codes "Too Early")
    ∷ (426, codes "Upgrade Required")
    ∷ (428, codes "Precondition Required")
    ∷ (429, codes "Too Many Requests")
    ∷ (431, codes "Request Header Fields Too Large")
    ∷ (451, codes "Unavailable For Legal Reasons")
    ∷ (500, codes "Internal Server Error")
    ∷ (501, codes "Not Implemented")
    ∷ (502, codes "Bad Gateway")
    ∷ (503, codes "Service Unavailable")
    ∷ (504, codes "Gateway Time-out")
    ∷ (505, codes "HTTP Version Not Supported")
    ∷ (510, codes "Not Extended")
    ∷ []
