-- ===== src/Input/Scan/Reads.antt =====
-- The loop of `parse_txt`, round by round, and its result.
use exim_fuzzer.Base.{
  ℕ, zero, suc, ◌+◌, ◌-◌, ◌≤◌, ◌<◌, ◌≡◌, refl, sym, ap, ◌∙◌, true, false, none, some, List, [], ◌∷◌,
  ◌++◌, arith, ltb, Bytes, length, take, length-append, append_assoc, lt→ltb, ltb_of_le, if_same,
  append-nil, dec_le, subst, Option-cases, inl, inr,
}
use exim_fuzzer.Packet.{Packet}
use exim_fuzzer.Token.WellFormed.{All}
use exim_fuzzer.Input.{separator, bytes_eq, parse_rest, parse_loop, parse_txt}
use exim_fuzzer.Input.Scan.{
  IsClean, HasNoSeparator, framed_bytes, last_packet, read_all, At, slice-pending, slice-window,
  slice-rest, At-onward, At-found,
}

-- The eight bytes at the cursor do not depend on what stands behind them.
take-append_le : (n : ℕ) (xs ys : Bytes) → n ≤ length xs → take n (xs ++ ys) ≡ take n xs
take-append_le zero xs ys h = refl
take-append_le (suc n) [] ys h = absurd (omega arith)
take-append_le (suc n) (x ∷ xs) ys h = ap (◌∷◌ x) (take-append_le n xs ys (omega arith))

-- The last packet is read from the bytes at the end, wherever the scan over them stands.
last_packet-cons : (b : ℕ) (c : Bytes) → 8 ≤ length (b ∷ c) → last_packet (b ∷ c) ≡ last_packet c
last_packet-cons b [] h = absurd (omega arith)
last_packet-cons b (x ∷ c) h =
    let e : length (b ∷ x ∷ c) - 7 ≡ suc (length (x ∷ c) - 7) = omega arith in rw e

pub last_packet-short :
    (b : ℕ) (c : Bytes) → length (b ∷ c) ≤ 7 → last_packet (b ∷ c) ≡ (b ∷ c) ∷ []
last_packet-short b c h = let e : length (b ∷ c) - 7 ≡ 0 = omega arith in rw e

framed-append :
    (c : Bytes) (cs : List Bytes) (last : Bytes)
    → framed_bytes (c ∷ cs) ++ last ≡ c ++ (separator ++ (framed_bytes cs ++ last))
framed-append c cs last =
    append_assoc c (separator ++ framed_bytes cs) last
    ∙ ap (λ x. c ++ x) (append_assoc separator (framed_bytes cs) last)

module _ {P : Type 0} (I : Packet P) (buf : Bytes) where
  open I use {deserialize_content}

  -- A round that looks at eight bytes which are no separator.
  parse_loop-onward :
      (fuel start cursor : ℕ) (packets : List P) {pend rest : Bytes}
      → At buf start cursor pend rest
      → 8 ≤ length rest
      → bytes_eq (take 8 rest) separator ≡ false
      → parse_loop I (suc fuel) buf start cursor packets
        ≡ parse_loop I fuel buf start (cursor + 1) packets
  unfolding parse_loop
  parse_loop-onward fuel start cursor packets {pend} {rest} a h e =
      let more : ltb cursor (length buf) ≡ true =
        lt→ltb cursor (length buf) (omega (arith, a.size)) in
      let room : ltb (length buf) (cursor + 8) ≡ false = ltb_of_le (omega (arith, a.size)) in
      rw (more, room, slice-window a h, e)

  -- A round that looks at a separator.
  parse_loop-found :
      (fuel start cursor : ℕ) (packets : List P) {pend rest : Bytes}
      → At buf start cursor pend (separator ++ rest)
      → parse_loop I (suc fuel) buf start cursor packets ≡ elim (deserialize_content pend) [
        | none ↦ some none
        | some packet ↦ parse_loop I fuel buf (cursor + 8) (cursor + 8) (packets ++ packet ∷ [])
      ]
  unfolding parse_loop
  parse_loop-found fuel start cursor packets {pend} {rest} a =
      let more : ltb cursor (length buf) ≡ true =
        lt→ltb cursor (length buf) (omega (arith, a.size, length-append separator rest)) in
      let room : ltb (length buf) (cursor + 8) ≡ false =
        ltb_of_le (omega (arith, a.size, length-append separator rest)) in
      rw (more, room, slice-window a (omega (arith, length-append separator rest)), slice-pending a)

  -- A round at which fewer than eight bytes are left.
  parse_loop-short :
      (fuel start cursor : ℕ) (packets : List P) {pend rest : Bytes}
      → At buf start cursor pend rest
      → length rest ≤ 7
      → parse_loop I (suc fuel) buf start cursor packets ≡ parse_rest I buf cursor packets
  unfolding parse_loop
  parse_loop-short fuel start cursor packets {pend} {rest} a h =
      let room : ltb (length buf) (cursor + 8) ≡ true = lt→ltb _ _ (omega (arith, a.size)) in
      rw room (if_same (ltb cursor (length buf)) _)

  parse_rest-nil :
      (start cursor : ℕ) (packets : List P) {pend : Bytes}
      → At buf start cursor pend []
      → parse_rest I buf cursor packets ≡ some (some packets)
  unfolding parse_rest
  parse_rest-nil start cursor packets a =
      let done : ltb cursor (length buf) ≡ false = ltb_of_le (omega (arith, a.size)) in rw done

  parse_rest-cons :
      (start cursor : ℕ) (packets : List P) (b : ℕ) (c : Bytes) {pend : Bytes}
      → At buf start cursor pend (b ∷ c)
      → parse_rest I buf cursor packets ≡ some (read_all I packets ((b ∷ c) ∷ []))
  unfolding parse_rest
  parse_rest-cons start cursor packets b c a =
      let more : ltb cursor (length buf) ≡ true = lt→ltb _ _ (omega (arith, a.size)) in
      rw (more, slice-rest a)
        (elim (Option-cases (deserialize_content (b ∷ c))) [
          | inl e ↦ rw (e, read_all)
          | inr (p, e) ↦ rw (e, read_all)
        ])

  -- The scan over bytes with no separator ends with the last packet.
  parse_loop-last :
      (fuel start cursor : ℕ) (packets : List P) (pend last : Bytes)
      → At buf start cursor pend last
      → HasNoSeparator last
      → length last < fuel
      → parse_loop I fuel buf start cursor packets ≡ some (read_all I packets (last_packet last))
  parse_loop-last zero start cursor packets pend last a n h = absurd (omega arith)
  parse_loop-last (suc fuel) start cursor packets pend [] a n h =
      parse_loop-short fuel start cursor packets a (omega arith)
      ∙ parse_rest-nil start cursor packets a
  parse_loop-last (suc fuel) start cursor packets pend (b ∷ c) a n h =
      elim (dec_le 8 (length (b ∷ c))) [
        | yes long ↦
            parse_loop-onward fuel start cursor packets a long n.0
            ∙ parse_loop-last fuel start (cursor + 1) packets (pend ++ b ∷ []) c (At-onward a) n.1
                (omega arith)
            ∙ ap (λ l. some (read_all I packets l)) (sym (last_packet-cons b c long))
        | no short ↦
            parse_loop-short fuel start cursor packets a (omega arith)
            ∙ parse_rest-cons start cursor packets b c a
            ∙ ap (λ l. some (read_all I packets l)) (sym (last_packet-short b c (omega arith)))
      ]

  -- The scan over `c` and a separator, and over what is framed behind it.
  parse_loop-framed :
      (fuel start cursor : ℕ) (packets : List P) (pend c : Bytes) (cs : List Bytes) (last : Bytes)
      → At buf start cursor pend (c ++ (separator ++ (framed_bytes cs ++ last)))
      → IsClean c
      → All IsClean cs
      → HasNoSeparator last
      → length (c ++ (separator ++ (framed_bytes cs ++ last))) < fuel
      → parse_loop I fuel buf start cursor packets
        ≡ some (read_all I packets ((pend ++ c) ∷ (cs ++ last_packet last)))
  parse_loop-framed zero start cursor packets pend c cs last a k ks n h = absurd (omega arith)
  parse_loop-framed (suc fuel) start cursor packets pend (b ∷ c) cs last a k ks n h =
      let tail = framed_bytes cs ++ last in
      let window : take 8 (b ∷ (c ++ (separator ++ tail))) ≡ take 8 (b ∷ (c ++ separator)) =
        ap (λ x. take 8 (b ∷ x)) (sym (append_assoc c separator tail))
        ∙ take-append_le 8 (b ∷ (c ++ separator)) tail (omega (arith, length-append c separator)) in
      parse_loop-onward fuel start cursor packets a
        (omega (arith, length-append c (separator ++ tail), length-append separator tail))
        (rw window k.0)
      ∙ parse_loop-framed fuel start (cursor + 1) packets (pend ++ b ∷ []) c cs last (At-onward a)
          k.1 ks n (omega arith)
      ∙ ap (λ x. some (read_all I packets (x ∷ (cs ++ last_packet last))))
          (append_assoc pend (b ∷ []) c)
  parse_loop-framed (suc fuel) start cursor packets pend [] [] last a k ks n h =
      parse_loop-found fuel start cursor packets a
      ∙ elim (Option-cases (deserialize_content pend)) [
        | inl e ↦ rw (append-nil, e, read_all)
        | inr (p, e) ↦
            rw (append-nil, e, read_all)
              (parse_loop-last fuel (cursor + 8) (cursor + 8) (packets ++ p ∷ []) [] last
                (At-found a) n (omega (arith, length-append separator last)))
      ]
  parse_loop-framed (suc fuel) start cursor packets pend [] (c ∷ cs) last a k ks n h =
      let regroup = framed-append c cs last in
      parse_loop-found fuel start cursor packets a
      ∙ elim (Option-cases (deserialize_content pend)) [
        | inl e ↦ rw (append-nil, e, read_all)
        | inr (p, e) ↦
            rw (append-nil, e, read_all)
              (parse_loop-framed fuel (cursor + 8) (cursor + 8) (packets ++ p ∷ []) [] c cs last
                (subst (At buf (cursor + 8) (cursor + 8) []) regroup (At-found a)) ks.0 ks.1 n
                (omega (
                  arith,
                  length-append separator (framed_bytes (c ∷ cs) ++ last),
                  ap length regroup,
                )))
      ]

  -- `parse_txt` of clean texts with a separator behind each, and of bytes without a separator behind
  -- the last, ends without a panic. It reads the texts in order, and then one more packet if there
  -- are bytes behind the last separator, but only from the last seven of these.
  pub parse_txt_lem :
      (cs : List Bytes) (last : Bytes)
      → buf ≡ framed_bytes cs ++ last
      → All IsClean cs
      → HasNoSeparator last
      → parse_txt I buf ≡ some (read_all I [] (cs ++ last_packet last))
  unfolding parse_txt
  parse_txt_lem [] last e ks n =
      parse_loop-last (length buf + 1) 0 0 [] [] last
        (record { ahead = e; position = refl; size = omega (arith, ap length e) }) n
        (omega (arith, ap length e))
  parse_txt_lem (c ∷ cs) last e ks n =
      let e' = e ∙ framed-append c cs last in
      parse_loop-framed (length buf + 1) 0 0 [] [] c cs last
        (record { ahead = e'; position = refl; size = omega (arith, ap length e') }) ks.0 ks.1 n
        (omega (arith, ap length e'))
