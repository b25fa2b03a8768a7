-- ===== src/Tests/Inputs.antt =====
-- Reading and writing packets and inputs, at concrete bytes.
use exim_fuzzer.Base.{
  ℕ, ◌-◌, ◌≡◌, ◌≢◌, refl, map, some, none, if◌then◌else◌, List, [], ◌∷◌, ◌++◌, Bytes, codes, arith,
  leb, length, take, drop, min, replicate,
}
use exim_fuzzer.Buffer.{overwrite}
use exim_fuzzer.Input.{PacketBasedInput, bytes_eq, convert_to_txt, parse_txt}
use exim_fuzzer.Input.Convert.{framed, convert_to_txt_lem}
use exim_fuzzer.Input.RoundTrip.{IsReadable, parse_txt-convert_to_txt, parse_txt-loses}
use exim_fuzzer.Input.Scan.{IsClean, HasNoSeparator, last_packet, read_all}
use exim_fuzzer.Input.Scan.Reads.{parse_txt_lem}
use exim_fuzzer.Packet.{bytes_packet, bytes_deserialize_content}
use exim_fuzzer.Utf8.{is_utf8}
use exim_fuzzer.Token.{
  TokenStream, text_of, number, whitespace, text, whitespace_byte, sign_byte, digit_byte, contains,
}
use exim_fuzzer.Token.WellFormed.{All}
use exim_fuzzer.Token.Deserialize.{deserialize_content}
use exim_fuzzer.Token.Parse.{
  from_str, next_token, try_parse_whitespace, prefix_len, try_parse_number, try_parse_text,
  text_ends,
}
use exim_fuzzer.Token.Parse.Total.{Parsed, from_str-Parsed}
use exim_fuzzer.Token.Serialize.{serialize_content, serialize_content_lem}

abbrev quit : TokenStream
quit = text (codes "QUIT") ∷ whitespace (13 ∷ 10 ∷ []) ∷ []

abbrev line : Bytes
line = codes "A -1"

abbrev line_tokens : TokenStream
line_tokens = text (codes "A") ∷ whitespace (codes " ") ∷ number (codes "-1") ∷ []

from_str-Parsed_example : Parsed line (from_str line)
from_str-Parsed_example = from_str-Parsed line

serialize_content_lem_example :
    serialize_content quit (replicate 4 0)
    ≡ some (min 4 6, overwrite (replicate 4 0) (text_of quit))
serialize_content_lem_example = serialize_content_lem quit (replicate 4 0)

reads : deserialize_content line ≡ some line_tokens
unfolding deserialize_content is_utf8 from_str next_token try_parse_whitespace prefix_len
    whitespace_byte try_parse_number sign_byte digit_byte try_parse_text text_ends contains
reads = refl

clean : All IsClean (codes "EHLO" ∷ [])
unfolding bytes_eq
clean = ground arith

bare : HasNoSeparator (codes "QUIT")
unfolding bytes_eq
bare = ground arith

readable : (b : Bytes) → IsReadable bytes_packet b
unfolding bytes_deserialize_content
readable b = (b, refl)

abbrev session : PacketBasedInput Bytes
session = codes "EHLO" ∷ codes "QUIT" ∷ []

convert_to_txt_lem_example : convert_to_txt bytes_packet session (replicate 30 0) ≡ (
    if leb (length (framed bytes_packet session)) 30
    then some (
      length (framed bytes_packet session) - 8,
      framed bytes_packet session ++ drop (length (framed bytes_packet session)) (replicate 30 0),
    )
    else none)
convert_to_txt_lem_example = convert_to_txt_lem bytes_packet session (replicate 30 0)

parse_txt_lem_example :
    parse_txt bytes_packet (codes "EHLO--------QUIT")
    ≡ some (read_all bytes_packet [] (codes "EHLO" ∷ last_packet (codes "QUIT")))
parse_txt_lem_example =
    parse_txt_lem bytes_packet (codes "EHLO--------QUIT") (codes "EHLO" ∷ []) (codes "QUIT") refl
      clean bare

parse_txt-convert_to_txt_example :
    (n : ℕ) × (buf' : Bytes) × (qs : List Bytes) × (convert_to_txt bytes_packet session
        (replicate 30 0)
      ≡ some (n, buf'))
    × (parse_txt bytes_packet (take n buf') ≡ some (some qs))
    × (map (λ b. b) qs ≡ map (λ b. b) session)
parse_txt-convert_to_txt_example =
    parse_txt-convert_to_txt bytes_packet (codes "EHLO" ∷ []) (codes "QUIT") (replicate 30 0)
      (omega arith) clean bare (omega arith) (omega arith) (readable (codes "EHLO"), tt)
      (readable (codes "QUIT"))

abbrev long : PacketBasedInput Bytes
long = codes "EHLO me" ∷ codes "MAIL FROM" ∷ []

abbrev text_of_long : Bytes
text_of_long = codes "EHLO me--------MAIL FROM"

separated_long : All IsClean (codes "EHLO me" ∷ [])
unfolding bytes_eq
separated_long = ground arith

unseparated_long : HasNoSeparator (codes "MAIL FROM")
unfolding bytes_eq
unseparated_long = ground arith

-- `MA` is lost.
reads_long :
    parse_txt bytes_packet text_of_long ≡ some (some (codes "EHLO me" ∷ codes "IL FROM" ∷ []))
unfolding bytes_deserialize_content
reads_long =
    parse_txt_lem bytes_packet text_of_long (codes "EHLO me" ∷ []) (codes "MAIL FROM") refl
      separated_long unseparated_long

writes_long :
    convert_to_txt bytes_packet long (replicate 32 0) ≡ some (24, text_of_long ++ codes "--------")
writes_long = convert_to_txt_lem bytes_packet long (replicate 32 0)

parse_txt-loses_example :
    (map (λ b. b) (codes "EHLO me" ∷ codes "IL FROM" ∷ [])
      ≡ codes "EHLO me" ∷ drop (length (codes "MAIL FROM") - 7) (codes "MAIL FROM") ∷ [])
    × (map (λ b. b) (codes "EHLO me" ∷ codes "IL FROM" ∷ []) ≢ map (λ b. b) long)
parse_txt-loses_example =
    parse_txt-loses bytes_packet (codes "EHLO me" ∷ []) (codes "MAIL FROM") (replicate 32 0)
      (omega arith) separated_long unseparated_long (omega arith) 24
      (text_of_long ++ codes "--------") (codes "EHLO me" ∷ codes "IL FROM" ∷ []) writes_long
      reads_long
