-- ===== src/Input/Scan.antt =====
-- What `parse_txt` reads: the packets in front of separators whole, and of what stands behind the
-- last separator at most the last seven bytes.
pub mod Reads
use exim_fuzzer.Base.{
  ℕ, zero, suc, ◌+◌, ◌-◌, ◌≤◌, ◌<◌, ◌≡◌, refl, sym, ap, ◌∙◌, true, false, Bool, Option, none, some,
  List, [], ◌∷◌, ◌++◌, arith, leb, ltb, ◌==◌, if◌then◌else◌, Bytes, length, take, drop,
  length-append, length-drop, drop-length-append, take-length-append, append_assoc, lt→ltb,
  take-all,
}
use exim_fuzzer.Packet.{Packet}
use exim_fuzzer.Vec.{range, slice}
use exim_fuzzer.Vec.Laws.{slice-part, drop-add}
use exim_fuzzer.Input.{PacketBasedInput, separator, bytes_eq, pushed}

-- No separator begins inside the bytes when one stands behind them.
abbrev pub IsClean : Bytes → Type 0
IsClean [] = Unit
IsClean (b ∷ c) = (bytes_eq (take 8 (b ∷ (c ++ separator))) separator ≡ false) × IsClean c

-- The bytes hold no separator.
abbrev pub HasNoSeparator : Bytes → Type 0
HasNoSeparator [] = Unit
HasNoSeparator (b ∷ c) = (bytes_eq (take 8 (b ∷ c)) separator ≡ false) × HasNoSeparator c

-- The texts, each with a separator behind it.
abbrev pub framed_bytes : List Bytes → Bytes
framed_bytes [] = []
framed_bytes (c ∷ cs) = c ++ (separator ++ framed_bytes cs)

-- What `parse_txt` makes of the bytes behind the last separator: nothing if there are none, or
-- else one packet from their last seven.
abbrev pub last_packet : Bytes → List Bytes
last_packet [] = []
last_packet (b ∷ c) = drop (length (b ∷ c) - 7) (b ∷ c) ∷ []

-- `deserialize_content` on each text in order, up to the first that is refused.
abbrev pub read_all :
    {P : Type 0} (I : Packet P) → List P → List Bytes → Option (PacketBasedInput P)
read_all I packets [] = some packets
read_all I packets (c ∷ cs) = elim (I.deserialize_content c) [
  | none ↦ none
  | some packet ↦ read_all I (packets ++ packet ∷ []) cs
]

-- The state of the loop: `pend` lies between `start` and the cursor, and `rest` behind it.
pub record At (buf : Bytes) (start cursor : ℕ) (pend rest : Bytes) : Type 0 where
  pub ahead : drop start buf ≡ pend ++ rest
  pub position : cursor ≡ start + length pend
  pub size : length buf ≡ cursor + length rest

module _ {buf : Bytes} {start cursor : ℕ} {pend : Bytes} where
  pub drop-cursor : {rest : Bytes} → At buf start cursor pend rest → drop cursor buf ≡ rest
  drop-cursor {rest} a =
      rw a.position
        (sym (drop-add start (length pend) buf) ∙ rw a.ahead (drop-length-append pend rest))

  -- `&buf[start..cursor]`
  pub slice-pending :
      {rest : Bytes} → At buf start cursor pend rest → slice buf (range start cursor) ≡ some pend
  slice-pending {rest} a =
      let n : cursor - start ≡ length pend = omega (arith, a.position) in
      slice-part buf (range start cursor) (omega (arith, a.position)) (omega (arith, a.size))
      ∙ ap some (rw (n, a.ahead) (take-length-append pend rest))

  -- `&buf[cursor..cursor + 8]`
  pub slice-window :
      {rest : Bytes}
      → At buf start cursor pend rest
      → 8 ≤ length rest
      → slice buf (range cursor (cursor + 8)) ≡ some (take 8 rest)
  slice-window {rest} a h =
      let n : cursor + 8 - cursor ≡ 8 = omega arith in
      slice-part buf (range cursor (cursor + 8)) (omega arith) (omega (arith, a.size))
      ∙ ap some (rw (n, drop-cursor a) refl)

  -- `&buf[cursor..]`
  pub slice-rest :
      {rest : Bytes}
      → At buf start cursor pend rest
      → slice buf (range cursor (length buf)) ≡ some rest
  slice-rest {rest} a =
      slice-part buf (range cursor (length buf)) (omega (arith, a.size)) (omega arith)
      ∙ ap some (rw (drop-cursor a) (take-all rest (length buf - cursor) (omega (arith, a.size))))

  -- The cursor moves over one byte.
  pub At-onward :
      {b : ℕ} {rest : Bytes}
      → At buf start cursor pend (b ∷ rest)
      → At buf start (cursor + 1) (pend ++ b ∷ []) rest
  At-onward {b} {rest} a = record {
    ahead = a.ahead ∙ sym (append_assoc pend (b ∷ []) rest);
    position = omega (arith, a.position, length-append pend (b ∷ []));
    size = omega (arith, a.size);
  }

  -- The cursor moves over a separator, and a new packet begins there.
  pub At-found :
      {rest : Bytes}
      → At buf start cursor pend (separator ++ rest)
      → At buf (cursor + 8) (cursor + 8) [] rest
  At-found {rest} a = record {
    ahead = sym (drop-add cursor 8 buf) ∙ rw (drop-cursor a) refl;
    position = omega arith;
    size = omega (arith, a.size, length-append separator rest);
  }
