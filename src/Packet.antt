-- ===== src/Packet.antt =====
-- fuzzer/src/input.rs: the trait `Packet` as an interface, and the byte packet that implements it.
-- `serialize_content` writes to a buffer that it is lent, so it returns the count and the new
-- buffer; `none` is a panic.
use exim_fuzzer.Base.{
  ℕ, ◌≡◌, refl, sym, Option, some, [], ◌++◌, ◌∙◌, ap, Bytes, length, take, drop, min, arith,
  take-append-drop, length-take,
}
use exim_fuzzer.Buffer.{copy_into, overwrite}
use exim_fuzzer.Buffer.Laws.{copy_into-append, overwrite-take}
use exim_fuzzer.Fallible.{◌>>=◌}
use exim_fuzzer.Vec.{range}

pub record Packet (P : Type 0) : Type 0 where
  pub serialize_content : P → Bytes → Option (ℕ × Bytes)
  pub deserialize_content : Bytes → Option P
  -- What a packet stands for, and what its two methods promise about it: a packet is written as
  -- far as the buffer can hold it, and a packet that is read has the bytes that were read.
  pub content : P → Bytes
  pub serialize_lem :
      (p : P) (buf : Bytes)
      → serialize_content p buf
        ≡ some (min (length buf) (length (content p)), overwrite buf (content p))
  pub deserialize_lem : (b : Bytes) (p : P) → deserialize_content b ≡ some p → content p ≡ b

-- `impl Packet for BytesInput`, whose bytes are its value.
unfoldable pub bytes_serialize_content : Bytes → Bytes → Option (ℕ × Bytes)
bytes_serialize_content self buffer = do
  let len = min (length buffer) (length self)
  buffer' ← copy_into buffer (range 0 len) (take len self)
  some (len, buffer')

unfoldable pub bytes_deserialize_content : Bytes → Option Bytes
bytes_deserialize_content buffer = some buffer

-- A byte packet writes as much of itself as the buffer can hold, and leaves the rest alone.
pub bytes_serialize_content_lem :
    (self buffer : Bytes)
    → bytes_serialize_content self buffer
      ≡ some (min (length buffer) (length self), overwrite buffer self)
unfolding bytes_serialize_content
bytes_serialize_content_lem self buffer =
    let len = min (length buffer) (length self) in
    let wrote : copy_into buffer (range 0 len) (take len self)
        ≡ some (take len self ++ drop len buffer) =
      ap (λ b. copy_into b (range 0 len) (take len self)) (sym (take-append-drop len buffer))
      ∙ copy_into-append [] (take len buffer) (take len self) (drop len buffer) 0 len
          (omega (arith, length-take len buffer, length-take len self)) refl
          (omega (arith, length-take len self)) in
    rw wrote (ap (λ (b : Bytes). some (len, b)) (sym (overwrite-take buffer self)))

pub bytes_deserialize_content_lem : (b p : Bytes) → bytes_deserialize_content b ≡ some p → p ≡ b
unfolding bytes_deserialize_content
bytes_deserialize_content_lem b p e = cc

abbrev pub bytes_packet : Packet Bytes
bytes_packet = record {
  serialize_content = bytes_serialize_content;
  deserialize_content = bytes_deserialize_content;
  content = λ b. b;
  serialize_lem = bytes_serialize_content_lem;
  deserialize_lem = bytes_deserialize_content_lem;
}
