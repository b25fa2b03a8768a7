-- ===== src/Token/Deserialize.antt =====
-- fuzzer/src/tokens/tokenstream.rs: `deserialize_content`, and `TokenStream` as a `Packet`.
use exim_fuzzer.Base.{◌≡◌, subst, Option, none, some, Bytes, if◌then◌else◌, arith}
use exim_fuzzer.Packet.{Packet}
use exim_fuzzer.Utf8.{is_utf8, is_utf8-ascii}
use exim_fuzzer.Token.{TokenStream, text_of}
use exim_fuzzer.Token.WellFormed.{AllBytes, AllWellFormed}
use exim_fuzzer.Token.Parse.{ParseResult, ok, err, from_str}
use exim_fuzzer.Token.Parse.Next.{is_ascii}
use exim_fuzzer.Token.Parse.Total.{Parsed, from_str-Parsed, from_str_ascii}
use exim_fuzzer.Token.Serialize.{serialize_content, serialize_content_lem}

-- `s.parse().ok()`
unfoldable pub parse_ok : Option ParseResult → Option TokenStream
parse_ok none = none
parse_ok (some (ok stream)) = some stream
parse_ok (some (err b)) = none

unfoldable pub deserialize_content : Bytes → Option TokenStream
unfolding parse_ok
deserialize_content buffer = if is_utf8 buffer then parse_ok (from_str buffer) else none

-- Any buffer of ASCII text is read as a packet: the stream's text is the buffer, and its tokens
-- are well-formed.
pub deserialize_content-ascii :
    (buffer : Bytes)
    → AllBytes is_ascii buffer
    → (ts : TokenStream) × (deserialize_content buffer ≡ some ts)
      × (text_of ts ≡ buffer)
      × AllWellFormed ts
unfolding deserialize_content
deserialize_content-ascii buffer a =
    let (ts, e, t, w) = from_str_ascii buffer a in (ts, rw (is_utf8-ascii buffer a, e), t, w)

pub parse_ok-Parsed :
    (s : Bytes) (r : Option ParseResult) {ts : TokenStream}
    → Parsed s r
    → parse_ok r ≡ some ts
    → (text_of ts ≡ s) × AllWellFormed ts × AllBytes is_ascii s
unfolding parse_ok
parse_ok-Parsed s none h e = absurd h
parse_ok-Parsed s (some (err b)) h e = cc
parse_ok-Parsed s (some (ok us)) {ts} h e =
    let same : us ≡ ts = cc in
    subst (λ ts. (text_of ts ≡ s) × AllWellFormed ts × AllBytes is_ascii s) same h

-- Only ASCII text is read as a packet, and the stream's text is then the buffer and its tokens are
-- well-formed.
pub deserialize_content-some :
    (buffer : Bytes) {ts : TokenStream}
    → deserialize_content buffer ≡ some ts
    → (text_of ts ≡ buffer) × AllWellFormed ts × AllBytes is_ascii buffer
unfolding deserialize_content
deserialize_content-some buffer e =
    parse_ok-Parsed buffer (from_str buffer) (from_str-Parsed buffer) (ground arith)

-- `TokenStream` keeps the promises of `Packet`.
abbrev pub stream_packet : Packet TokenStream
stream_packet = record {
  serialize_content = serialize_content;
  deserialize_content = deserialize_content;
  content = text_of;
  serialize_lem = serialize_content_lem;
  deserialize_lem = λ b p e. (deserialize_content-some b e).0;
}
