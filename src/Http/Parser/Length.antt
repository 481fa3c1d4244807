-- ===== src/Http/Parser/Length.antt =====
-- From a header with a `content-length` to the body.
use http_nest.Prelude.{
  ℕ, ◌^◌, ◌<◌, ◌≡◌, ◌∙◌, ap, arith, false, [], some, none, if◌then◌else◌, ==_ne, codes,
}
use http_nest.Prelude.Int.{pos, is_zero, to_int32, to_int32_small}
use http_nest.Strings.Find.{is_empty}
use http_nest.Http.Numbers.{stoull}
use http_nest.Http.Request.{HttpRequest, get_header}
use http_nest.Http.Parser.State.{ParserState, HttpParser}
use http_nest.Http.Parser.Lines.{choose_body}
use http_nest.Http.Parser.Fill.{fresh_packet_lem}
use http_nest.Http.Parser.Reassembly.{Awaiting}

pub choose_body-length :
    (p : HttpParser) (r : HttpRequest) (n : ℕ)
    → is_empty (get_header r (codes "content-length")) ≡ false
    → stoull (get_header r (codes "content-length")) ≡ some n
    → choose_body p r ≡ record p {
      req = some r;
      cur_content_length = to_int32 (pos n);
      state =
          if is_zero (to_int32 (pos n)) then ParserState.http_complete else ParserState.normal_body;
    }
unfolding choose_body
choose_body-length p r n given num = rw (given, num)

-- Behind a header whose `content-length` is a number from 1 up to 2 ^ 31 - 1, a parser that has no
-- packet waits for a body of that length, of which it has nothing.
pub choose_body-Awaiting :
    (p : HttpParser) (r : HttpRequest) (n : ℕ)
    → is_empty (get_header r (codes "content-length")) ≡ false
    → stoull (get_header r (codes "content-length")) ≡ some n
    → 0 < n
    → n < 2 ^ 31
    → p.chunk ≡ none
    → Awaiting (choose_body p r) [] n
choose_body-Awaiting p r n given num more small fresh =
    let (pk, opens, ok, has_room, no_bytes) = fresh_packet_lem n small in
    record {
      in_body = ap (λ (q : HttpParser). q.state) e ∙ rw (z, ==_ne n 0 (omega arith));
      length_is = ap (λ (q : HttpParser). q.cur_content_length) e ∙ z;
      packet = pk;
      opens = rw (ap (λ (q : HttpParser). q.chunk) e ∙ fresh) opens;
      packet_ok = ok;
      has_room = has_room;
      has_bytes = no_bytes;
    }
  where
    e : choose_body p r ≡ record p {
      req = some r;
      cur_content_length = to_int32 (pos n);
      state =
          if is_zero (to_int32 (pos n)) then ParserState.http_complete else ParserState.normal_body;
    }
    e = choose_body-length p r n given num

    z : to_int32 (pos n) ≡ pos n
    z = to_int32_small n small
