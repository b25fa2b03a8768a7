-- ===== src/Input.antt =====
-- fuzzer/src/input.rs: `PacketBasedInput`, which stands here for its vector of packets, and its text
-- form for libdesock, `convert_to_txt` and `parse_txt`.
pub mod Convert
pub mod Overflow
pub mod Scan
pub mod Total
pub mod RoundTrip
use exim_fuzzer.Base.{
  ℕ, zero, suc, ◌+◌, ◌-◌, Bool, true, false, ◌&&◌, Option, none, some, List, [], ◌∷◌, ◌++◌, ltb,
  leb, ◌==◌, if◌then◌else◌, Bytes, codes, length, take, drop,
}
use exim_fuzzer.Buffer.{copy_into}
use exim_fuzzer.Fallible.{◌>>=◌}
use exim_fuzzer.Packet.{Packet}
use exim_fuzzer.Vec.{range, slice}

abbrev pub PacketBasedInput : Type 0 → Type 0
PacketBasedInput P = List P

-- `LIBDESOCK_SEPARATOR`
abbrev pub separator : Bytes
separator = codes "--------"

-- Equality of slices.
unfoldable pub bytes_eq : Bytes → Bytes → Bool
bytes_eq [] [] = true
bytes_eq (x ∷ xs) (y ∷ ys) = x == y && bytes_eq xs ys
bytes_eq _ _ = false

module _ {P : Type 0} (I : Packet P) where
  open I use {serialize_content, deserialize_content}

  -- The loop of `convert_to_txt`, with its `saturating_sub` at the end.
  unfoldable pub convert_loop : List P → Bytes → ℕ → Option (ℕ × Bytes)
  convert_loop [] buf cursor = some (cursor - 8, buf)
  convert_loop (packet ∷ packets) buf cursor = do
    window ← slice buf (range cursor (length buf))
    (n, window') ← serialize_content packet window
    let cursor' = cursor + n
    buf' ← copy_into (take cursor buf ++ window') (range cursor' (cursor' + 8)) separator
    convert_loop packets buf' (cursor' + 8)

  -- The buffer is lent: the result is the length of the text and the new buffer.
  unfoldable pub convert_to_txt : PacketBasedInput P → Bytes → Option (ℕ × Bytes)
  unfolding convert_loop
  convert_to_txt packets buf = convert_loop packets buf 0

  -- What is in the buffer when that loop ends, by a return or a panic: also a packet is then there behind
  -- which the separator has no room. By the promise of `Packet` the method never panics itself.
  unfoldable pub left_loop : List P → Bytes → ℕ → Bytes
  left_loop [] buf cursor = buf
  left_loop (packet ∷ packets) buf cursor = elim (slice buf (range cursor (length buf))) [
    | none ↦ buf
    | some window ↦ elim (serialize_content packet window) [
      | none ↦ buf
      | some (n, window') ↦
          let cursor' = cursor + n in
          let buf1 = take cursor buf ++ window' in
          elim (copy_into buf1 (range cursor' (cursor' + 8)) separator) [
            | none ↦ buf1
            | some buf' ↦ left_loop packets buf' (cursor' + 8)
          ]
    ]
  ]

  unfoldable pub left_in_buffer : PacketBasedInput P → Bytes → Bytes
  unfolding left_loop
  left_in_buffer packets buf = left_loop packets buf 0

  -- `packets.push(packet?)`
  abbrev pub pushed : List P → Option P → Option (PacketBasedInput P)
  pushed packets none = none
  pushed packets (some packet) = some (packets ++ packet ∷ [])

  -- Behind the loop of `parse_txt`: what is left from the cursor on is one more packet.
  unfoldable pub parse_rest : Bytes → ℕ → List P → Option (Option (PacketBasedInput P))
  parse_rest buf cursor packets =
      if ltb cursor (length buf)
      then (do
        rest ← slice buf (range cursor (length buf))
        some (pushed packets (deserialize_content rest)))
      else some (some packets)

  -- The loop of `parse_txt`, with fuel for its rounds. The outer `none` is a panic, or fuel that ran
  -- out; the inner one is a packet that cannot be read.
  unfoldable pub parse_loop : ℕ → Bytes → ℕ → ℕ → List P → Option (Option (PacketBasedInput P))
  unfolding parse_rest bytes_eq
  parse_loop zero buf start cursor packets = none
  parse_loop (suc fuel) buf start cursor packets =
      let found : Option (Option (PacketBasedInput P)) = do
        bytes ← slice buf (range start cursor)
        elim (deserialize_content bytes) [
          | none ↦ some none
          | some packet ↦ parse_loop fuel buf (cursor + 8) (cursor + 8) (packets ++ packet ∷ [])
        ]
      in let onward = parse_loop fuel buf start (cursor + 1) packets in
        let round : Option (Option (PacketBasedInput P)) = do
          window ← slice buf (range cursor (cursor + 8))
          if bytes_eq window separator then found else onward
        in if ltb cursor (length buf)
          then if ltb (length buf) (cursor + 8) then parse_rest buf cursor packets else round
          else parse_rest buf cursor packets

  unfoldable pub parse_txt : Bytes → Option (Option (PacketBasedInput P))
  unfolding parse_loop
  parse_txt buf = parse_loop (length buf + 1) buf 0 0 []
