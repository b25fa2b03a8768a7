-- ===== src/Input/Overflow.antt =====
-- What `convert_to_txt` leaves in a buffer that is too short.
use exim_fuzzer.Base.{
  ℕ, ◌+◌, ◌≤◌, ◌<◌, ◌≡◌, refl, sym, subst, ap, ◌∙◌, List, [], ◌∷◌, ◌++◌, min, arith, append_assoc,
  Bytes, length, drop, length-append, take-length-append, dec_le, length-drop,
}
use exim_fuzzer.Buffer.{overwrite}
use exim_fuzzer.Packet.{Packet}
use exim_fuzzer.Vec.Laws.{drop-add}
use exim_fuzzer.Input.{PacketBasedInput, separator, left_loop, left_in_buffer}
use exim_fuzzer.Input.Convert.{framed, length-framed, window, separator-fits, separator-full}

module _ {P : Type 0} (I : Packet P) where
  open I use {content, serialize_lem}

  -- The first packet that has no room, with those in front of it.
  pub record Stuck (packets : List P) (old new : Bytes) : Type 0 where
    pub written : List P
    pub packet : P
    pub others : List P
    pub all_packets : packets ≡ written ++ packet ∷ others
    pub room : length (framed I written) ≤ length old
    pub no_room : length old < length (framed I written) + length (content packet) + 8
    pub now :
        new ≡ framed I written ++ overwrite (drop (length (framed I written)) old) (content packet)

  module _ (p : P) (ps : List P) (done rest : Bytes) (cursor : ℕ) (e : cursor ≡ length done) where
    left_loop-step :
        length (content p) + 8 ≤ length rest
        → left_loop I (p ∷ ps) (done ++ rest) cursor
          ≡ left_loop I ps
              ((done ++ (content p ++ separator)) ++ drop (length (content p) + 8) rest)
              (cursor + length (content p) + 8)
    unfolding left_loop
    left_loop-step h =
        let n : min (length rest) (length (content p)) ≡ length (content p) = omega arith in
        let fits = separator-fits I p ps done rest cursor e h in
        let wrote = rw n at fits in
        rw
          (
            left_loop,
            window I done rest cursor e,
            serialize_lem p rest,
            n,
            e,
            take-length-append,
            wrote,
          )
          (ap
            (left_loop I ps
              ((done ++ (content p ++ separator)) ++ drop (length (content p) + 8) rest))
            (omega arith))

    left_loop-full :
        length rest < length (content p) + 8
        → left_loop I (p ∷ ps) (done ++ rest) cursor ≡ done ++ overwrite rest (content p)
    unfolding left_loop
    left_loop-full h =
        rw
          (
            left_loop,
            window I done rest cursor e,
            serialize_lem p rest,
            e,
            take-length-append,
            separator-full I p ps done rest cursor e h,
          )
          (ap (λ (d : Bytes). d ++ overwrite rest (content p))
            (rw e (take-length-append done rest)))

  -- One more packet in front, for which there was room.
  Stuck-cons :
      (p : P) (ps : List P) (rest new : Bytes)
      → length (content p) + 8 ≤ length rest
      → (new' : Bytes) → Stuck ps (drop (length (content p) + 8) rest) new'
      → new ≡ content p ++ (separator ++ new')
      → Stuck (p ∷ ps) rest new
  Stuck-cons p ps rest new h new' s e =
      let k = length (content p) + 8 in
      let f = framed I s.written in
      let len = length-framed I p s.written in
      let left = length-drop k rest in
      let room = s.room in
      let no_room = s.no_room in
      record {
        written = p ∷ s.written;
        packet = s.packet;
        others = s.others;
        all_packets = ap (λ (l : List P). p ∷ l) s.all_packets;
        room = omega arith;
        no_room = omega arith;
        now =
            e
            ∙ ap (λ (b : Bytes). content p ++ (separator ++ b)) s.now
            ∙ rw (len, drop-add k (length f) rest)
                (ap (λ (b : Bytes). content p ++ b) (sym (append_assoc separator f _))
                  ∙ sym (append_assoc (content p) (separator ++ f) _));
      }

  left_loop-Stuck :
      (ps : List P) (done rest : Bytes) (cursor : ℕ)
      → cursor ≡ length done
      → length rest < length (framed I ps)
      → (new : Bytes) × (left_loop I ps (done ++ rest) cursor ≡ done ++ new) × Stuck ps rest new
  left_loop-Stuck [] done rest cursor e h = absurd (omega arith)
  left_loop-Stuck (p ∷ ps) done rest cursor e h =
      let c = content p in
      elim (dec_le (length c + 8) (length rest)) [
        | no full ↦ (
          overwrite rest c,
          left_loop-full p ps done rest cursor e (omega arith),
          record {
            written = [];
            packet = p;
            others = ps;
            all_packets = refl;
            room = omega arith;
            no_room = omega arith;
            now = refl;
          },
        )
        | yes room ↦
            let (new', left, stuck) =
              left_loop-Stuck ps (done ++ (c ++ separator)) (drop (length c + 8) rest)
                (cursor + length c + 8)
                (omega (arith, length-append done (c ++ separator), length-append c separator))
                (omega (arith, length-framed I p ps, length-drop (length c + 8) rest)) in
            (
              c ++ (separator ++ new'),
              left_loop-step p ps done rest cursor e room
                  ∙ left
                  ∙ append_assoc done (c ++ separator) new'
                  ∙ ap (λ (b : Bytes). done ++ b) (append_assoc c separator new'),
              Stuck-cons p ps rest (c ++ (separator ++ new')) room new' stuck refl,
            )
      ]

  -- In a buffer that is shorter than the packets with a separator behind each, the packets in front of the
  -- first one without room are left, with their separators, and of that one what the buffer can hold.
  pub left_in_buffer-Stuck :
      (packets : PacketBasedInput P) (buf : Bytes)
      → length buf < length (framed I packets)
      → Stuck packets buf (left_in_buffer I packets buf)
  unfolding left_in_buffer
  left_in_buffer-Stuck packets buf h =
      let (new, left, stuck) = left_loop-Stuck packets [] buf 0 refl h in
      subst (Stuck packets buf) (sym left) stuck
