-- ===== src/Token/RoundTrip.antt =====
-- fuzzer/src/tokens/tokenstream.rs: what `serialize_content` has written, read again.
use exim_fuzzer.Base.{
  ℕ, ◌≤◌, ◌≡◌, sym, ap, ◌∙◌, some, ◌++◌, Bytes, length, take, drop, min, arith, length-take,
  take-length-append, take-all,
}
use exim_fuzzer.Buffer.{overwrite}
use exim_fuzzer.Buffer.Laws.{overwrite-take}
use exim_fuzzer.Token.{TokenStream, text_of}
use exim_fuzzer.Token.Deserialize.{deserialize_content, deserialize_content-ascii}
use exim_fuzzer.Token.Parse.Next.{is_ascii}
use exim_fuzzer.Token.Serialize.{serialize_content, serialize_content_lem}
use exim_fuzzer.Token.WellFormed.{AllBytes}

-- The bytes written are the beginning of the text.
pub take-overwrite :
    (buf src : Bytes)
    → let n = min (length buf) (length src) in take n (overwrite buf src) ≡ take n src
take-overwrite buf src =
    let n = min (length buf) (length src) in
    let len : length (take n src) ≡ n = omega (arith, length-take n src) in
    ap (take n) (overwrite-take buf src)
    ∙ ap (λ k. take k (take n src ++ drop n buf)) (sym len)
    ∙ take-length-append (take n src) (drop n buf)

-- A stream of ASCII text that the buffer has room for.
pub serialize-reads_back :
    (packet : TokenStream) (buffer : Bytes)
    → AllBytes is_ascii (text_of packet)
    → length (text_of packet) ≤ length buffer
    → (n : ℕ) × (buffer' : Bytes) × (ts : TokenStream) × (serialize_content packet buffer
        ≡ some (n, buffer'))
      × (deserialize_content (take n buffer') ≡ some ts)
      × (text_of ts ≡ text_of packet)
serialize-reads_back packet buffer a room =
    let s = text_of packet in
    let n = min (length buffer) (length s) in
    let (ts, e, same, _) = deserialize_content-ascii s a in
    let written : take n (overwrite buffer s) ≡ s =
      take-overwrite buffer s ∙ take-all s n (omega arith) in
    (
      n,
      overwrite buffer s,
      ts,
      serialize_content_lem packet buffer,
      ap deserialize_content written ∙ e,
      same,
    )
