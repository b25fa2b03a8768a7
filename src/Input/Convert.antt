-- ===== src/Input/Convert.antt =====
-- When `convert_to_txt` has room, and what it writes.
use exim_fuzzer.Base.{
  ℕ, ◌+◌, ◌-◌, ◌≤◌, ◌<◌, ◌≡◌, refl, sym, ap, ap₂, ◌∙◌, false, none, some, List, [], ◌∷◌, ◌++◌, min,
  arith, leb, if◌then◌else◌, append_assoc, Bytes, length, take, drop, length-append,
  drop-length-append, take-length-append, take-append-drop, take-all, append-nil, le→leb, dec_le,
  length-take, length-drop,
}
use exim_fuzzer.Buffer.{copy_into, overwrite}
use exim_fuzzer.Buffer.Laws.{copy_into-append, copy_into-overflow, overwrite-fits, length-overwrite}
use exim_fuzzer.Packet.{Packet}
use exim_fuzzer.Vec.{range, slice}
use exim_fuzzer.Vec.Laws.{slice-part, drop-add}
use exim_fuzzer.Input.{PacketBasedInput, separator, convert_loop, convert_to_txt}

module _ {P : Type 0} (I : Packet P) where
  open I use {serialize_content, content, serialize_lem}

  -- The packets, each with a separator behind it.
  abbrev pub framed : List P → Bytes
  framed [] = []
  framed (p ∷ ps) = content p ++ (separator ++ framed ps)

  -- The part of the buffer from the cursor on.
  pub window :
      (done rest : Bytes) (cursor : ℕ)
      → cursor ≡ length done
      → slice (done ++ rest) (range cursor (length (done ++ rest))) ≡ some rest
  window done rest cursor e =
      let r = range cursor (length (done ++ rest)) in
      slice-part (done ++ rest) r (omega (arith, length-append done rest)) (omega arith)
      ∙ ap some
          (rw (e, drop-length-append) (take-all rest _ (omega (arith, length-append done rest))))

  module _ (p : P) (ps : List P) (done rest : Bytes) (cursor : ℕ) (e : cursor ≡ length done) where
    -- With room for a packet and its separator, the separator is copied behind the packet.
    pub separator-fits :
        length (content p) + 8 ≤ length rest
        → copy_into
            (done ++ overwrite rest (content p))
            (range
              (length done + min (length rest) (length (content p)))
              (length done + min (length rest) (length (content p)) + 8))
            separator
          ≡ some ((done ++ (content p ++ separator)) ++ drop (length (content p) + 8) rest)
    separator-fits h =
        let c = content p in
        let n : min (length rest) (length c) ≡ length c = omega arith in
        let gap = drop (length c) rest in
        let regroup : done ++ (c ++ gap) ≡ (done ++ c) ++ (take 8 gap ++ drop 8 gap) =
          sym (append_assoc done c gap)
          ∙ ap (λ g. (done ++ c) ++ g) (sym (take-append-drop 8 gap)) in
        let eight : length (take 8 gap) ≡ length separator =
          omega (arith, length-take 8 gap, length-drop (length c) rest) in
        let wrote =
          copy_into-append (done ++ c) (take 8 gap) separator (drop 8 gap) (length done + length c)
            (length done + length c + 8) eight (omega (arith, length-append done c))
            (omega (arith, length-append done c)) in
        let back = drop-add (length c) 8 rest in
        rw (n, overwrite-fits rest c (omega arith), regroup, wrote, back)
          (ap some (
            sym (append_assoc (done ++ c) separator (drop (length c + 8) rest))
            ∙ ap (λ b. b ++ drop (length c + 8) rest) (append_assoc done c separator)))

    -- Without the room, the copy is out of range.
    pub separator-full :
        length rest < length (content p) + 8
        → copy_into
            (done ++ overwrite rest (content p))
            (range
              (length done + min (length rest) (length (content p)))
              (length done + min (length rest) (length (content p)) + 8))
            separator
          ≡ none
    separator-full h =
        let end = length done + min (length rest) (length (content p)) in
        copy_into-overflow (done ++ overwrite rest (content p)) end (end + 8) separator (
          omega (
            arith,
            length-append done (overwrite rest (content p)),
            length-overwrite rest (content p),
          ))

    -- With room for a packet and its separator, one round writes both.
    convert_loop-step :
        length (content p) + 8 ≤ length rest
        → convert_loop I (p ∷ ps) (done ++ rest) cursor
          ≡ convert_loop I ps
              ((done ++ (content p ++ separator)) ++ drop (length (content p) + 8) rest)
              (cursor + length (content p) + 8)
    unfolding convert_loop
    convert_loop-step h =
        let n : min (length rest) (length (content p)) ≡ length (content p) = omega arith in
        let wrote = rw n at separator-fits h in
        rw (window done rest cursor e, serialize_lem p rest, n, e, take-length-append, wrote) refl

    convert_loop-full :
        length rest < length (content p) + 8 → convert_loop I (p ∷ ps) (done ++ rest) cursor ≡ none
    unfolding convert_loop
    convert_loop-full h =
        rw
          (window done rest cursor e, serialize_lem p rest, e, take-length-append, separator-full h)

  pub length-framed :
      (p : P) (ps : List P) → length (framed (p ∷ ps)) ≡ length (content p) + 8 + length (framed ps)
  length-framed p ps = omega (
    arith,
    length-append (content p) (separator ++ framed ps),
    length-append separator (framed ps),
  )

  convert_loop-fits :
      (ps : List P) (done rest : Bytes) (cursor : ℕ)
      → cursor ≡ length done
      → length (framed ps) ≤ length rest
      → convert_loop I ps (done ++ rest) cursor
        ≡ some
            (cursor + length (framed ps) - 8, (done ++ framed ps) ++ drop (length (framed ps)) rest)
  convert_loop-fits [] done rest cursor e h =
      unfold convert_loop in
      ap₂ (λ (n : ℕ) (b : Bytes). some (n, b)) (omega arith)
        (ap (λ d. d ++ rest) (sym (append-nil done)))
  convert_loop-fits (p ∷ ps) done rest cursor e h =
      let c = content p in
      let rest' = drop (length c + 8) rest in
      let done' = done ++ (c ++ separator) in
      let len = length-framed p ps in
      let len' : length rest' ≡ length rest - (length c + 8) = length-drop (length c + 8) rest in
      convert_loop-step p ps done rest cursor e (omega arith)
      ∙ convert_loop-fits ps done' rest' (cursor + length c + 8)
          (omega (arith, length-append done (c ++ separator), length-append c separator))
          (omega arith)
      ∙ ap₂ (λ (n : ℕ) (b : Bytes). some (n, b)) (omega arith)
          (ap₂ (λ x y. x ++ y)
            (append_assoc done (c ++ separator) (framed ps)
              ∙ ap (λ x. done ++ x) (append_assoc c separator (framed ps)))
            (rw (length-framed p ps) (drop-add (length c + 8) (length (framed ps)) rest)))

  convert_loop-overflow :
      (ps : List P) (done rest : Bytes) (cursor : ℕ)
      → cursor ≡ length done
      → length rest < length (framed ps)
      → convert_loop I ps (done ++ rest) cursor ≡ none
  convert_loop-overflow [] done rest cursor e h = absurd (omega arith)
  convert_loop-overflow (p ∷ ps) done rest cursor e h =
      elim (dec_le (length (content p) + 8) (length rest)) [
        | no full ↦ convert_loop-full p ps done rest cursor e (omega arith)
        | yes room ↦
            let c = content p in
            convert_loop-step p ps done rest cursor e room
            ∙ convert_loop-overflow ps (done ++ (c ++ separator)) (drop (length c + 8) rest)
                (cursor + length c + 8)
                (omega (arith, length-append done (c ++ separator), length-append c separator))
                (omega (arith, length-framed p ps, length-drop (length c + 8) rest))
      ]

  -- `convert_to_txt` panics exactly if the buffer is shorter than the packets with a separator
  -- behind each, so also where only the last separator, which it does not count, lacks room.
  -- Otherwise it writes these and returns the length of the text without the last separator; the
  -- rest of the buffer is left alone.
  pub convert_to_txt_lem :
      (packets : PacketBasedInput P) (buf : Bytes)
      → convert_to_txt I packets buf ≡ (
          if leb (length (framed packets)) (length buf)
          then some
              (length (framed packets) - 8, framed packets ++ drop (length (framed packets)) buf)
          else none)
  unfolding convert_to_txt
  convert_to_txt_lem packets buf = elim (dec_le (length (framed packets)) (length buf)) [
    | yes h ↦ rw (le→leb _ _ h) (
        convert_loop-fits packets [] buf 0 refl h
        ∙ ap (λ (n : ℕ). some (n, framed packets ++ drop (length (framed packets)) buf))
            (omega arith))
    | no h ↦
        let no_room : leb (length (framed packets)) (length buf) ≡ false = ground arith in
        rw no_room (convert_loop-overflow packets [] buf 0 refl (omega arith))
  ]
