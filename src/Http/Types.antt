-- ===== src/Http/Types.antt =====
-- The enumerations of src/http/HttpTypes.h.
use http_nest.Prelude.{ℕ}

pub data HttpStatusCode : Type 0 where
  unknown continue switching_protocols ok : HttpStatusCode
  created accepted non_authoritative_information no_content : HttpStatusCode
  reset_content partial_content multiple_choices moved_permanently : HttpStatusCode
  found see_other not_modified use_proxy : HttpStatusCode
  temporary_redirect permanent_redirect bad_request unauthorized : HttpStatusCode
  payment_required forbidden not_found method_not_allowed : HttpStatusCode
  not_acceptable proxy_authentication_required request_timeout conflict : HttpStatusCode
  gone length_required precondition_failed request_entity_too_large : HttpStatusCode
  request_uri_too_large unsupported_media_type requested_range_not_satisfiable expectation_failed :
      HttpStatusCode
  im_a_teapot misdirected_request too_early upgrade_required : HttpStatusCode
  precondition_required too_many_requests request_header_fields_too_large
        unavailable_for_legal_reasons :
      HttpStatusCode
  internal_server_error not_implemented bad_gateway service_unavailable : HttpStatusCode
  gateway_timeout http_version_not_supported not_extended : HttpStatusCode

-- The values of the enumeration.
unfoldable pub status_value : HttpStatusCode → ℕ
status_value unknown = 0
status_value continue = 100
status_value switching_protocols = 101
status_value ok = 200
status_value created = 201
status_value accepted = 202
status_value non_authoritative_information = 203
status_value no_content = 204
status_value reset_content = 205
status_value partial_content = 206
status_value multiple_choices = 300
status_value moved_permanently = 301
status_value found = 302
status_value see_other = 303
status_value not_modified = 304
status_value use_proxy = 305
status_value temporary_redirect = 307
status_value permanent_redirect = 308
status_value bad_request = 400
status_value unauthorized = 401
status_value payment_required = 402
status_value forbidden = 403
status_value not_found = 404
status_value method_not_allowed = 405
status_value not_acceptable = 406
status_value proxy_authentication_required = 407
status_value request_timeout = 408
status_value conflict = 409
status_value gone = 410
status_value length_required = 411
status_value precondition_failed = 412
status_value request_entity_too_large = 413
status_value request_uri_too_large = 414
status_value unsupported_media_type = 415
status_value requested_range_not_satisfiable = 416
status_value expectation_failed = 417
status_value im_a_teapot = 418
status_value misdirected_request = 421
status_value too_early = 425
status_value upgrade_required = 426
status_value precondition_required = 428
status_value too_many_requests = 429
status_value request_header_fields_too_large = 431
status_value unavailable_for_legal_reasons = 451
status_value internal_server_error = 500
status_value not_implemented = 501
status_value bad_gateway = 502
status_value service_unavailable = 503
status_value gateway_timeout = 504
status_value http_version_not_supported = 505
status_value not_extended = 510

pub data Version : Type 0 where
  unknown http10 http11 : Version

pub data ContentType : Type 0 where
  none app_json text_plain text_html app_x_form : ContentType
  app_mpeg_url video_mp2t video_x_flv text_xml app_xml : ContentType

pub data HttpMethod : Type 0 where
  get post head put delete options patch invalid : HttpMethod
