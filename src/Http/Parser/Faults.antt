-- ===== src/Http/Parser/Faults.antt =====
-- Messages that `HttpParser::Parse` accepts though it should refuse them, or that it does not
-- survive.
use http_nest.Prelude.{
  ℕ, ◌-◌, ◌%◌, ◌^◌, ◌<◌, ◌≤◌, ◌≡◌, ◌≢◌, ◌∙◌, refl, ap, arith, false, List, [], ◌∷◌, none, some,
  length, take, lt→ltb, Bytes, codes, search,
}
use http_nest.Prelude.Int.{pos, negsuc, to_int32}
use http_nest.Buffer.{MsgBuffer, readable_bytes, peek, crlf}
use http_nest.Strings.{split_string}
use http_nest.Strings.Find.{is_empty}
use http_nest.Http.Numbers.{stoull}
use http_nest.Http.Packet.{new_packet}
use http_nest.Http.Request.{HttpRequest, get_header}
use http_nest.Http.Outcome.{Fault, null_request, negative_packet, fault}
use http_nest.Http.Parser.State.{ParserState, HttpParser, reject}
use http_nest.Http.Parser.Body.{open_chunk, fill_chunk, parse_normal_body}
use http_nest.Http.Parser.Lines.{
  process_split, process_method_line, finish_headers, parse_lines, parse_headers, choose_body,
}
use http_nest.Http.Parser.Machine.{parse, parse_in, expect_headers, crlf_crlf}
use http_nest.Http.Parser.Length.{choose_body-length}
use http_nest.Http.Parser.Reassembly.{parse-parse_in}

process_split-reject :
    (p : HttpParser) (words : List Bytes) → length words ≢ 3 → process_split p words ≡ reject p
unfolding process_split
process_split-reject p [] h = refl
process_split-reject p (a ∷ []) h = refl
process_split-reject p (a ∷ b ∷ []) h = refl
process_split-reject p (a ∷ b ∷ c ∷ []) h = absurd (h refl)
process_split-reject p (a ∷ b ∷ c ∷ d ∷ words) h = refl

expect_headers-fault :
    (p : HttpParser) (buf : MsgBuffer) (size : ℕ) {e : Fault}
    → 4 < readable_bytes buf
    → search crlf_crlf (peek buf) ≡ some size
    → parse_headers (record p { header = take size (peek buf) }) ≡ fault e
    → expect_headers p buf ≡ fault e
unfolding expect_headers
expect_headers-fault p buf size long hit h = rw (lt→ltb 4 (readable_bytes buf) long, hit, h)

-- A complete header whose first line has not three words makes a parser that has no request call
-- through the null `req_`.
pub parse-null_request :
    (p : HttpParser) (buf : MsgBuffer) (size : ℕ) (line : Bytes) (lines : List Bytes)
    → p.state ≡ ParserState.headers
    → p.req ≡ none
    → 4 < readable_bytes buf
    → search crlf_crlf (peek buf) ≡ some size
    → split_string (take size (peek buf)) crlf ≡ line ∷ lines
    → length (split_string line (b' ' ∷ [])) ≢ 3
    → parse p buf ≡ fault null_request
unfolding parse_in
parse-null_request p buf size line lines st r long hit split words =
    parse-parse_in p buf ParserState.headers st (omega arith)
    ∙ expect_headers-fault p buf size long hit headers
  where
    no_request : (q : HttpParser) → q.req ≡ none → parse_lines q (line ∷ lines) ≡ fault null_request
    no_request q e =
        unfold parse_lines process_method_line finish_headers in
        rw (process_split-reject q (split_string line (b' ' ∷ [])) words, e, finish_headers)

    headers : parse_headers (record p { header = take size (peek buf) }) ≡ fault null_request
    headers =
        unfold parse_headers process_method_line in
        rw (split, no_request (record p { header = take size (peek buf) }) r)

negative : (n : ℕ) → 2 ^ 31 ≤ n → n < 2 ^ 32 → to_int32 (pos n) ≡ negsuc (2 ^ 32 - n - 1)
unfolding to_int32
negative n lo hi = ground arith

wraps : (n : ℕ) → n % 2 ^ 32 ≡ 0 → to_int32 (pos n) ≡ pos 0
unfolding to_int32
wraps n h = ground arith

no_packet :
    (q : HttpParser) (buf : MsgBuffer) (n : ℕ)
    → q.chunk ≡ none
    → q.cur_content_length ≡ negsuc n
    → parse_normal_body q buf ≡ fault negative_packet
unfolding parse_normal_body fill_chunk open_chunk new_packet
no_packet q buf n c e = rw (c, e)

-- A length of 2 ^ 31 up to 2 ^ 32 - 1 in `content-length` is taken for a negative one, and the first
-- byte of the body makes `ParseNormalBody` ask for a packet of negative size.
pub choose_body-negative_packet :
    (p : HttpParser) (r : HttpRequest) (buf : MsgBuffer) (n : ℕ)
    → is_empty (get_header r (codes "content-length")) ≡ false
    → stoull (get_header r (codes "content-length")) ≡ some n
    → 2 ^ 31 ≤ n
    → n < 2 ^ 32
    → p.chunk ≡ none
    → ((choose_body p r).state ≡ ParserState.normal_body)
      × (parse_normal_body (choose_body p r) buf ≡ fault negative_packet)
choose_body-negative_packet p r buf n given num lo hi c =
    let e = choose_body-length p r n given num in
    let z = negative n lo hi in
    (
      ap (λ (q : HttpParser). q.state) e ∙ rw z,
      no_packet (choose_body p r) buf (2 ^ 32 - n - 1) (ap (λ (q : HttpParser). q.chunk) e ∙ c)
          (ap (λ (q : HttpParser). q.cur_content_length) e ∙ z),
    )

-- A length that is a multiple of 2 ^ 32 is taken for zero: the message ends behind its headers.
pub choose_body-wraps :
    (p : HttpParser) (r : HttpRequest) (n : ℕ)
    → is_empty (get_header r (codes "content-length")) ≡ false
    → stoull (get_header r (codes "content-length")) ≡ some n
    → n % 2 ^ 32 ≡ 0
    → ((choose_body p r).state ≡ ParserState.http_complete)
      × ((choose_body p r).cur_content_length ≡ pos 0)
choose_body-wraps p r n given num h =
    let e = choose_body-length p r n given num in
    let z = wraps n h in
    (ap (λ (q : HttpParser). q.state) e ∙ rw z, ap (λ (q : HttpParser). q.cur_content_length) e ∙ z)
