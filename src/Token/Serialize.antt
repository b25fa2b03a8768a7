-- ===== src/Token/Serialize.antt =====
-- fuzzer/src/tokens/tokenstream.rs: `impl Packet for TokenStream`. The buffer is lent to
-- `serialize_content`, which returns the count of bytes written and the new buffer.
use exim_fuzzer.Base.{
  ℕ, ◌+◌, ◌≡◌, refl, sym, ap, ap₂, ◌∙◌, Option, some, [], ◌∷◌, ◌++◌, Bytes, length, take, drop, min,
  arith, append_assoc, length-take, length-append, length-drop, take-append-drop,
}
use exim_fuzzer.Buffer.{copy_into, overwrite}
use exim_fuzzer.Buffer.Laws.{copy_into-append, overwrite-append, overwrite-nil}
use exim_fuzzer.Fallible.{◌>>=◌, checked_sub, checked_sub_le}
use exim_fuzzer.Vec.{range}
use exim_fuzzer.Token.{TokenStream, bytes_of, text_of}

-- The loop of `serialize_content`; `&data[..rem_len]` is in range, as `rem_len ≤ data.len()`.
unfoldable pub serialize_loop : TokenStream → Bytes → ℕ → Option (ℕ × Bytes)
serialize_loop [] buffer cursor = some (cursor, buffer)
serialize_loop (token ∷ stream) buffer cursor = do
  let bytes = bytes_of token
  left ← checked_sub (length buffer) cursor
  let rem_len = min left (length bytes)
  buffer' ← copy_into buffer (range cursor (cursor + rem_len)) (take rem_len bytes)
  serialize_loop stream buffer' (cursor + rem_len)

unfoldable pub serialize_content : TokenStream → Bytes → Option (ℕ × Bytes)
unfolding serialize_loop
serialize_content stream buffer = serialize_loop stream buffer 0

module _ (done rest d : Bytes) (cursor : ℕ) (at_end : cursor ≡ length done) where
  abbrev fitting : ℕ
  fitting = min (length rest) (length d)

  checked_sub-rest : checked_sub (length (done ++ rest)) cursor ≡ some (length rest)
  checked_sub-rest =
      checked_sub_le (length (done ++ rest)) cursor (omega (arith, length-append done rest))
      ∙ ap some (omega (arith, length-append done rest))

  copy_into-next :
      copy_into (done ++ rest) (range cursor (cursor + fitting)) (take fitting d)
      ≡ some (done ++ (take fitting d ++ drop fitting rest))
  copy_into-next =
      let written : length (take fitting d) ≡ fitting = omega (arith, length-take fitting d) in
      ap (λ r. copy_into (done ++ r) (range cursor (cursor + fitting)) (take fitting d))
        (sym (take-append-drop fitting rest))
      ∙ copy_into-append done (take fitting rest) (take fitting d) (drop fitting rest) cursor
          (cursor + fitting) (omega (arith, written, length-take fitting rest)) at_end
          (omega (arith, written))

serialize_loop-append :
    (stream : TokenStream) (done rest : Bytes) (cursor : ℕ)
    → cursor ≡ length done
    → serialize_loop stream (done ++ rest) cursor
      ≡ some (
        cursor + min (length rest) (length (text_of stream)),
        done ++ overwrite rest (text_of stream),
      )
unfolding serialize_loop
serialize_loop-append [] done rest cursor e =
    ap₂ (λ (n : ℕ) (b : Bytes). some (n, done ++ b)) (omega arith) (sym (overwrite-nil rest))
serialize_loop-append (t ∷ stream) done rest cursor e =
    let d = bytes_of t in
    let k = fitting done rest d cursor e in
    rw (checked_sub-rest done rest d cursor e, copy_into-next done rest d cursor e, ← append_assoc)
      (serialize_loop-append stream (done ++ take k d) (drop k rest) (cursor + k)
          (omega (arith, length-append done (take k d), length-take k d))
        ∙ ap₂ (λ (n : ℕ) (b : Bytes). some (n, b))
            (omega (arith, length-drop k rest, length-append d (text_of stream)))
            (append_assoc done (take k d) (overwrite (drop k rest) (text_of stream))
              ∙ ap (λ b. done ++ b) (sym (overwrite-append rest d (text_of stream)))))

-- Serialising never panics: it writes as much of the stream's text as the buffer can hold to the
-- beginning of the buffer, leaves the rest of the buffer alone, and returns the number of bytes
-- written.
pub serialize_content_lem :
    (stream : TokenStream) (buffer : Bytes)
    → serialize_content stream buffer
      ≡ some (min (length buffer) (length (text_of stream)), overwrite buffer (text_of stream))
unfolding serialize_content
serialize_content_lem stream buffer =
    serialize_loop-append stream [] buffer 0 refl
    ∙ ap (λ (n : ℕ). some (n, overwrite buffer (text_of stream))) (omega arith)
