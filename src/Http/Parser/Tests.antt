-- ===== src/Http/Parser/Tests.antt =====
-- The parser on concrete messages, and the theorems on it.
use http_nest.Prelude.{
  ◌≡◌, refl, arith, true, false, [], ◌∷◌, ◌++◌, some, replicate, Bytes, codes, search, bytes_eq,
  starts,
}
use http_nest.Prelude.Int.{pos, to_int32, ◌-ℤ◌}
use http_nest.Buffer.{
  MsgBuffer, readable_bytes, writable_bytes, peek, retrieve, retrieve_all, read_fd, store,
}
use http_nest.Buffer.Memory.{splice}
use http_nest.Buffer.Contents.{Holds}
use http_nest.Strings.{split_string, split_from}
use http_nest.Strings.Find.{find, is_empty}
use http_nest.Http.Types.{HttpMethod}
use http_nest.Http.Utils.{to_lower, is_space}
use http_nest.Http.Numbers.{stoull, decimal_from, skip_space, take_sign}
use http_nest.Http.Fields.{lookup}
use http_nest.Http.Packet.{new_packet, packet_bytes, space, update_packet_size, copy_in}
use http_nest.Http.Request.{HttpRequest, new_request, get_header}
use http_nest.Http.Outcome.{done, fault, null_request}
use http_nest.Http.Parser.State.{ParserState, HttpParser, new_parser}
use http_nest.Http.Parser.Body.{open_chunk, copy_bytes, fill_chunk, parse_normal_body}
use http_nest.Http.Parser.Lines.{process_method_line, choose_body}
use http_nest.Http.Parser.Machine.{parse, parse_in}
use http_nest.Http.Parser.Reassembly.{Awaiting, Complete}
use http_nest.Http.Parser.Feed.{feed, Arrives, feed-Complete}
use http_nest.Http.Parser.FirstLine.{process_method_line-request_first_line}
use http_nest.Http.Request.Print.{request_first_line}
use http_nest.Http.Utils.{line_end}
use http_nest.Http.Types.{Version}
use http_nest.Http.Parser.Length.{choose_body-Awaiting}
use http_nest.Http.Parser.Faults.{parse-null_request}

abbrev empty : MsgBuffer
empty = record { head = 8; init_cap = 64; buffer = replicate 72 0; tail = 8 }

empty-Holds : Holds empty []
unfolding peek
empty-Holds = record { valid = omega arith; holds = refl }

-- A parser that waits for three bytes.
abbrev waiting : HttpParser
waiting = record new_parser { state = ParserState.normal_body; cur_content_length = pos 3 }

waiting-Awaiting : Awaiting waiting [] 3
unfolding open_chunk new_packet packet_bytes
waiting-Awaiting = record {
  in_body = refl;
  length_is = refl;
  packet = _;
  opens = refl;
  packet_ok = record { inside = omega arith; stored = refl; small = omega arith };
  has_room = refl;
  has_bytes = refl;
}

pieces-Arrives : Arrives (codes "a" ∷ codes "bc" ∷ []) waiting empty
unfolding parse parse_in parse_normal_body fill_chunk copy_bytes open_chunk new_packet space
    update_packet_size copy_in splice readable_bytes writable_bytes peek retrieve retrieve_all
    read_fd to_int32 ◌-ℤ◌ store
pieces-Arrives = (omega arith, omega arith, omega arith, omega arith)

feed-Complete_example :
    (q : HttpParser) × (buf' : MsgBuffer) × (feed waiting empty (codes "a" ∷ codes "bc" ∷ [])
      ≡ done (q, buf'))
    × Complete q (codes "abc")
    × Holds buf' []
feed-Complete_example =
    feed-Complete (codes "a" ∷ codes "bc" ∷ []) waiting empty (omega arith) waiting-Awaiting
      empty-Holds (omega arith) pieces-Arrives refl

-- "GET /\r\n\r\n": two words.
abbrev two_words : MsgBuffer
two_words = record {
  head = 8;
  init_cap = 64;
  buffer = replicate 8 0 ++ codes "GET /\r\n\r\n" ++ replicate 64 0;
  tail = 17;
}

parse-null_request_example : parse new_parser two_words ≡ fault null_request
unfolding search peek readable_bytes split_string split_from find is_empty starts
parse-null_request_example =
    parse-null_request new_parser two_words 5 (codes "GET /") [] refl refl (omega arith) refl refl
      (omega arith)

-- A request with such a `content-length`.
abbrev sized : Bytes → HttpRequest
sized len = record (new_request true) { headers = (codes "content-length", len) ∷ [] }

length_of :
    (is_empty (get_header (sized (codes "3000000000")) (codes "content-length")) ≡ false)
    × (stoull (get_header (sized (codes "3000000000")) (codes "content-length")) ≡ some 3000000000)
    × (is_empty (get_header (sized (codes "4294967296")) (codes "content-length")) ≡ false)
    × (stoull (get_header (sized (codes "4294967296")) (codes "content-length")) ≡ some 4294967296)
unfolding get_header lookup bytes_eq stoull decimal_from skip_space take_sign is_space new_request
    is_empty to_lower
length_of = (refl, refl, refl, refl)

abbrev get_blank : HttpRequest
get_blank = record (new_request true) { method = HttpMethod.get; path = codes "/a b%" }

process_method_line-request_first_line_example :
    (line : Bytes) × (request_first_line get_blank ≡ line ++ line_end)
    × (process_method_line new_parser line ≡ record new_parser {
      is_request = true;
      req = some (record (new_request true) {
        method = HttpMethod.get;
        version = Version.http11;
        path = codes "/a b%";
      });
    })
unfolding new_request
process_method_line-request_first_line_example =
    process_method_line-request_first_line new_parser get_blank refl has_path (omega arith) refl
      no_parameters
  where
    has_path : is_empty get_blank.path ≡ false
    has_path = unfold is_empty in refl

    no_parameters : get_blank.parameters ≡ []
    no_parameters = unfold new_request in refl

length_of_three :
    (is_empty (get_header (sized (codes "3")) (codes "content-length")) ≡ false)
    × (stoull (get_header (sized (codes "3")) (codes "content-length")) ≡ some 3)
unfolding get_header lookup bytes_eq stoull decimal_from skip_space take_sign is_space new_request
    is_empty to_lower
length_of_three = (refl, refl)

choose_body-Awaiting_example : Awaiting (choose_body new_parser (sized (codes "3"))) [] 3
choose_body-Awaiting_example =
    choose_body-Awaiting new_parser (sized (codes "3")) 3 length_of_three.0 length_of_three.1
      (omega arith) (omega arith) refl
