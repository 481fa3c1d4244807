-- ===== src/Http/Parser/FirstLine.antt =====
-- The first line of a request as `AppendRequestFirstLine` writes it, in front of `ProcessMethodLine`.
use http_nest.Prelude.{
  ℕ, ◌≡◌, ◌≢◌, ◌∙◌, refl, ap, ap₂, Bool, true, false, not, [], ◌∷◌, ◌++◌, none, some, arith, ◌==◌,
  ◌&&◌, ◌||◌, if◌then◌else◌, Bool-cases, inl, inr, Bytes, AreBytes, codes, bytes_eq, starts,
  append_assoc, append-nil, sym,
}
use http_nest.Strings.Find.{find_first_of, is_empty, one_of}
use http_nest.Strings.Split.{terminated}
use http_nest.Strings.Join.{lacks, all_lack, lacks-append, split_string-terminated}
use http_nest.Http.Types.{HttpMethod, Version}
use http_nest.Http.Utils.{parse_method, lower, to_lower, line_end}
use http_nest.Http.Utils.Url.{
  url_encode, encode_char, url_decode, decode_char, need_url_decoding, is_plain, char_to_hex,
}
use http_nest.Http.Utils.RoundTrip.{
  all_below, all_below_sound, url_decode-url_encode, url_decode-cons,
}
use http_nest.Http.Request.{
  HttpRequest, new_request, set_method, set_path, set_version, parse_version,
}
use http_nest.Http.Request.Print.{method_name, version_name, parameters_text, request_first_line}
use http_nest.Http.Parser.State.{HttpParser}
use http_nest.Http.Parser.Lines.{set_target, process_words, process_split, process_method_line}

-- The encoded form of a byte has no blank, and a question mark only for a question mark.
no_blank_table : all_below 256 (λ c. lacks b' ' (encode_char c)) ≡ true
unfolding all_below encode_char is_plain char_to_hex
no_blank_table = refl

no_question_table : all_below 256 (λ c. c == b'?' || lacks b'?' (encode_char c)) ≡ true
unfolding all_below encode_char is_plain char_to_hex
no_question_table = refl

url_encode-no_blank : (s : Bytes) → AreBytes s → lacks b' ' (url_encode s) ≡ true
unfolding url_encode
url_encode-no_blank [] h = refl
url_encode-no_blank (c ∷ s) h =
    lacks-append b' ' (encode_char c) (url_encode s)
      (all_below_sound 256 (λ c. lacks b' ' (encode_char c)) c no_blank_table h.0)
      (url_encode-no_blank s h.1)

url_encode-no_question :
    (s : Bytes) → AreBytes s → lacks b'?' s ≡ true → lacks b'?' (url_encode s) ≡ true
unfolding url_encode
url_encode-no_question [] h n = refl
url_encode-no_question (c ∷ s) h n =
    let (here, later) = parts c (lacks b'?' s) n in
    lacks-append b'?' (encode_char c) (url_encode s)
      (other c (lacks b'?' (encode_char c)) here (
        all_below_sound 256 (λ c. c == b'?' || lacks b'?' (encode_char c)) c no_question_table h.0))
      (url_encode-no_question s h.1 later)
  where
    parts : (c : ℕ) (b : Bool) → (not (b'?' == c) && b) ≡ true → (c ≢ b'?') × (b ≡ true)
    parts c b h = (ground arith, ground arith)

    other : (c : ℕ) (b : Bool) → c ≢ b'?' → (c == b'?' || b) ≡ true → b ≡ true
    other c b h e = ground arith

find_first_of-lacks : (c : ℕ) (s : Bytes) → lacks c s ≡ true → find_first_of (c ∷ []) s ≡ none
unfolding find_first_of one_of
find_first_of-lacks c [] h = refl
find_first_of-lacks c (x ∷ s) h =
    let (here, later) = parts (lacks c s) h in rw (here, find_first_of-lacks c s later)
  where
    parts : (b : Bool) → (not (c == x) && b) ≡ true → (((c == x) || false) ≡ false) × (b ≡ true)
    parts b h = (ground arith, ground arith)

-- A text without '+' and '%' is its own decoded form.
url_decode-id : (s : Bytes) → need_url_decoding s ≡ false → url_decode s ≡ s
unfolding need_url_decoding decode_char
url_decode-id [] h = unfold url_decode in refl
url_decode-id (c ∷ s) h =
    let (n, m, later) = parts c (need_url_decoding s) h in
    url_decode-cons c s n ∙ ap₂ ◌∷◌ m (url_decode-id s later)
  where
    parts :
        (c : ℕ) (b : Bool)
        → ((c == b'+' || c == b'%') || b) ≡ false
        → (c ≢ b'%') × ((if c == b'+' then b' ' else c) ≡ c) × (b ≡ false)
    parts c b h = (ground arith, ground arith, ground arith)

-- `SetPath` with an encoded path.
set_path-url_encode :
    (r : HttpRequest) (s : Bytes) → AreBytes s → set_path r (url_encode s) ≡ record r { path = s }
unfolding set_path
set_path-url_encode r s h = elim (Bool-cases (need_url_decoding (url_encode s))) [
  | inl need ↦ rw (need, url_decode-url_encode s h) refl
  | inr plain ↦ rw plain (
      ap (λ t. record r { path = t })
        (sym (url_decode-id (url_encode s) plain) ∙ url_decode-url_encode s h))
]

-- The methods that a request can be sent and be read with.
abbrev pub is_sent_and_read : HttpMethod → Bool
is_sent_and_read HttpMethod.patch = false
is_sent_and_read HttpMethod.invalid = false
is_sent_and_read m = true

method_lem :
    (m : HttpMethod)
    → is_sent_and_read m ≡ true
    → (parse_method (method_name m) ≡ m)
      × (starts (codes "http") (lower (method_name m)) ≡ false)
      × (lacks b' ' (method_name m) ≡ true)
unfolding parse_method method_name bytes_eq starts to_lower
method_lem HttpMethod.get h = (refl, refl, refl)
method_lem HttpMethod.post h = (refl, refl, refl)
method_lem HttpMethod.head h = (refl, refl, refl)
method_lem HttpMethod.put h = (refl, refl, refl)
method_lem HttpMethod.delete h = (refl, refl, refl)
method_lem HttpMethod.options h = (refl, refl, refl)
method_lem HttpMethod.patch h = cc
method_lem HttpMethod.invalid h = cc

-- The version that is written: there is none for a request that has none.
abbrev pub sent_version : Version → Version
sent_version Version.http10 = Version.http10
sent_version _ = Version.http11

abbrev version_word : Version → Bytes
version_word Version.http10 = codes "HTTP/1.0"
version_word _ = codes "HTTP/1.1"

version_lem :
    (v : Version)
    → (parse_version (version_word v) ≡ sent_version v)
      × (lacks b' ' (version_word v) ≡ true)
      × (version_name v ≡ version_word v ++ b' ' ∷ [])
unfolding parse_version version_name http_nest.Http.Request.prefix_differs bytes_eq
version_lem Version.http10 = (refl, refl, refl)
version_lem Version.http11 = (refl, refl, refl)
version_lem Version.unknown = (refl, refl, refl)

-- The line that is written, without its CRLF.
abbrev first_line : HttpRequest → Bytes
first_line r =
    terminated (b' ' ∷ []) (method_name r.method ∷ url_encode r.path ∷ version_word r.version ∷ [])

first_line_lem :
    (r : HttpRequest)
    → is_empty r.path ≡ false
    → r.parameters ≡ []
    → request_first_line r ≡ first_line r ++ line_end
unfolding request_first_line parameters_text
first_line_lem r path no_parameters =
    let (_, _, word) = version_lem r.version in
    rw (path, no_parameters, append-nil, word)
      (sym (
        append_assoc (method_name r.method) (b' ' ∷ (target ++ (b' ' ∷ version))) line_end
        ∙ ap (λ t. method_name r.method ++ (b' ' ∷ t))
            (append_assoc target (b' ' ∷ version) line_end)))
  where
    target : Bytes
    target = url_encode r.path

    version : Bytes
    version = version_word r.version ++ b' ' ∷ []

-- What the parser makes of the three words.
abbrev read_request : HttpRequest → HttpRequest
read_request r = record (new_request true) {
  method = r.method;
  version = sent_version r.version;
  path = r.path;
}

process_words_lem :
    (p : HttpParser) (r : HttpRequest)
    → is_sent_and_read r.method ≡ true
    → AreBytes r.path
    → lacks b'?' r.path ≡ true
    → process_words p (method_name r.method) (url_encode r.path) (version_word r.version)
      ≡ record p { is_request = true; req = some (read_request r) }
unfolding process_words set_method set_version new_request
process_words_lem p r m bytes plain =
    let (method, request, _) = method_lem r.method m in
    let (version, _, _) = version_lem r.version in
    rw (request, target_lem (set_method (new_request true) (method_name r.method)), method, version)
      refl
  where
    target_lem : (q : HttpRequest) → set_target q (url_encode r.path) ≡ record q { path = r.path }
    target_lem q =
        unfold set_target in
        rw
          (
            find_first_of-lacks b'?' (url_encode r.path)
                (url_encode-no_question r.path bytes plain),
            set_target,
          )
          (set_path-url_encode q r.path bytes)

-- A request without parameters that has a path of bytes without a question mark, and one of the six
-- methods that the parser knows, is read from its own
-- first line: method and path come back as they were, escapes in the path included, and a version
-- that is not HTTP/1.0 as HTTP/1.1.
pub process_method_line-request_first_line :
    (p : HttpParser) (r : HttpRequest)
    → is_sent_and_read r.method ≡ true
    → is_empty r.path ≡ false
    → AreBytes r.path
    → lacks b'?' r.path ≡ true
    → r.parameters ≡ []
    → (line : Bytes) × (request_first_line r ≡ line ++ line_end)
      × (process_method_line p line ≡ record p {
        is_request = true;
        req = some (record (new_request true) {
          method = r.method;
          version = sent_version r.version;
          path = r.path;
        });
      })
unfolding process_method_line process_split
process_method_line-request_first_line p r m path bytes plain no_parameters =
    let words =
      split_string-terminated b' '
        (method_name r.method ∷ url_encode r.path ∷ version_word r.version ∷ []) no_blanks in
    (
      first_line r,
      first_line_lem r path no_parameters,
      rw words (process_words_lem p r m bytes plain),
    )
  where
    no_blanks :
        all_lack b' ' (method_name r.method ∷ url_encode r.path ∷ version_word r.version ∷ [])
        ≡ true
    no_blanks =
        let (_, _, blank1) = method_lem r.method m in
        let (_, blank2, _) = version_lem r.version in
        rw (blank1, blank2, url_encode-no_blank r.path bytes) refl
