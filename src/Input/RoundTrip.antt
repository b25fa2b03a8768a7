-- ===== src/Input/RoundTrip.antt =====
-- `parse_txt` on the text that `convert_to_txt` writes.
use exim_fuzzer.Base.{
  ℕ, ◌+◌, ◌-◌, ◌≤◌, ◌<◌, ◌≡◌, ◌≢◌, refl, sym, ap, ap₂, ◌∙◌, Option, some, List, [], ◌∷◌, ◌++◌,
  arith, map, le→leb, Bytes, length, take, drop, length-append, length-drop, take-length-append,
  append_assoc, append-nil, map-append, Option-cases, inl, inr,
}
use exim_fuzzer.Packet.{Packet}
use exim_fuzzer.Token.WellFormed.{All, All-append}
use exim_fuzzer.Input.{separator, convert_to_txt, parse_txt}
use exim_fuzzer.Input.Convert.{framed, convert_to_txt_lem}
use exim_fuzzer.Input.Scan.{IsClean, HasNoSeparator, framed_bytes, last_packet, read_all}
use exim_fuzzer.Input.Scan.Reads.{parse_txt_lem, last_packet-short}

last_packet-whole : (c : Bytes) → 0 < length c → length c ≤ 7 → last_packet c ≡ c ∷ []
last_packet-whole [] h k = absurd (omega arith)
last_packet-whole (b ∷ c) h k = last_packet-short b c k

last_packet-cut :
    (c : Bytes)
    → 7 < length c
    → (last_packet c ≡ drop (length c - 7) c ∷ []) × (length (drop (length c - 7) c) < length c)
last_packet-cut [] h = absurd (omega arith)
last_packet-cut (b ∷ c) h =
    let k = length (b ∷ c) - 7 in (refl, omega (arith, length-drop k (b ∷ c)))

-- The number of bytes in all texts.
abbrev total : List Bytes → ℕ
total [] = 0
total (c ∷ cs) = length c + total cs

total-append : (cs ds : List Bytes) → total (cs ++ ds) ≡ total cs + total ds
total-append [] ds = omega arith
total-append (c ∷ cs) ds = omega (arith, total-append cs ds)

module _ {P : Type 0} (I : Packet P) where
  open I use {content, deserialize_content, deserialize_lem}

  abbrev pub IsReadable : Bytes → Type 0
  IsReadable c = (p : P) × (deserialize_content c ≡ some p)

  framed-snoc :
      (ps : List P) (p : P)
      → framed I (ps ++ p ∷ []) ≡ (framed_bytes (map content ps) ++ content p) ++ separator
  framed-snoc [] p = ap (λ x. content p ++ x) (append-nil separator)
  framed-snoc (q ∷ ps) p =
      let rest = framed_bytes (map content ps) in
      ap (λ x. content q ++ (separator ++ x)) (framed-snoc ps p)
      ∙ ap (λ x. content q ++ x) (sym (append_assoc separator (rest ++ content p) separator))
      ∙ sym (append_assoc (content q) (separator ++ (rest ++ content p)) separator)
      ∙ ap (λ x. x ++ separator)
          (ap (λ x. content q ++ x) (sym (append_assoc separator rest (content p)))
            ∙ sym (append_assoc (content q) (separator ++ rest) (content p)))

  -- Whatever is read stands for what was there.
  read_all-map :
      (done : List P) (cs : List Bytes) {qs : List P}
      → read_all I done cs ≡ some qs
      → map content qs ≡ map content done ++ cs
  read_all-map done [] {qs} e =
      let same : done ≡ qs = cc in rw same (sym (append-nil (map content qs)))
  read_all-map done (c ∷ cs) {qs} e = elim (Option-cases (deserialize_content c)) [
    | inl bad ↦ absurd (cc (rw (bad, read_all) at e))
    | inr (p, r) ↦
        read_all-map (done ++ p ∷ []) cs (rw (r, read_all) at e)
        ∙ rw (map-append, deserialize_lem c p r) (append_assoc (map content done) (c ∷ []) cs)
  ]

  -- Readable texts are read in order, each as a packet that stands for it.
  read_all-content :
      (done : List P) (cs : List Bytes)
      → All IsReadable cs
      → (ps : List P) × (read_all I done cs ≡ some (done ++ ps)) × (map content ps ≡ cs)
  read_all-content done [] h = ([], ap some (sym (append-nil done)), refl)
  read_all-content done (c ∷ cs) ((p, e), hs) =
      let (ps, r, m) = read_all-content (done ++ p ∷ []) cs hs in
      (
        p ∷ ps,
        rw (e, read_all) (r ∙ ap some (append_assoc done (p ∷ []) ps)),
        ap₂ (λ x y. x ∷ y) (deserialize_lem c p e) m,
      )

  module _ (ps : List P) (p : P) (buf : Bytes)
      (room : length (framed I (ps ++ p ∷ [])) ≤ length buf) where
    abbrev pub text : Bytes
    text = framed_bytes (map content ps) ++ content p

    -- The text that is written.
    pub convert_to_txt-snoc :
        (buf' : Bytes) × (convert_to_txt I (ps ++ p ∷ []) buf ≡ some (length text, buf'))
        × (take (length text) buf' ≡ text)
    convert_to_txt-snoc =
        let total = length (framed I (ps ++ p ∷ [])) in
        let len : total - 8 ≡ length text =
          omega (arith, ap length (framed-snoc ps p), length-append text separator) in
        (
          framed I (ps ++ p ∷ []) ++ drop total buf,
          rw (← len)
              (convert_to_txt_lem I (ps ++ p ∷ []) buf ∙ rw (le→leb total (length buf) room)),
          rw (framed-snoc ps p, append_assoc) (take-length-append text _),
        )

    module _ (clean : All IsClean (map content ps)) (bare : HasNoSeparator (content p)) where
      parse_txt-text :
          parse_txt I text ≡ some (read_all I [] (map content ps ++ last_packet (content p)))
      parse_txt-text = parse_txt_lem I text (map content ps) (content p) refl clean bare

      -- Where the buffer has room for all packets with a separator behind each, the last packet has one to
      -- seven bytes and holds no separator, no other packet is confused by a separator in it or behind it,
      -- and the packets' texts can be read, `convert_to_txt` succeeds and `parse_txt` reads from its text
      -- packets that stand for the same bytes, in the same order.
      pub parse_txt-convert_to_txt :
          0 < length (content p)
          → length (content p) ≤ 7
          → All IsReadable (map content ps)
          → IsReadable (content p)
          → (n : ℕ) × (buf' : Bytes) × (qs : List P) × (convert_to_txt I (ps ++ p ∷ []) buf
              ≡ some (n, buf'))
            × (parse_txt I (take n buf') ≡ some (some qs))
            × (map content qs ≡ map content (ps ++ p ∷ []))
      parse_txt-convert_to_txt pos short reads read =
          let (buf', wrote, taken) = convert_to_txt-snoc in
          let cs = map content ps ++ content p ∷ [] in
          let (qs, r, m) =
            read_all-content [] cs
              (All-append _ (map content ps) (content p ∷ []) reads (read, tt)) in
          (
            length text,
            buf',
            qs,
            wrote,
            rw taken (parse_txt-text ∙ ap some (rw (last_packet-whole (content p) pos short) r)),
            m ∙ sym (map-append content ps (p ∷ [])),
          )

      -- Where the buffer has room for all packets with a separator behind each, the last packet has more
      -- than seven bytes and holds no separator, and no other packet is confused by a separator in it or
      -- behind it, whatever `parse_txt` reads from the text that `convert_to_txt` writes stands for the
      -- other packets and the last seven bytes of the last one: its front is lost, so the bytes differ.
      pub parse_txt-loses :
          7 < length (content p)
          → (n : ℕ) (buf' : Bytes) (qs : List P)
          → convert_to_txt I (ps ++ p ∷ []) buf ≡ some (n, buf')
          → parse_txt I (take n buf') ≡ some (some qs)
          → (map content qs ≡ map content ps ++ drop (length (content p) - 7) (content p) ∷ [])
            × (map content qs ≢ map content (ps ++ p ∷ []))
      parse_txt-loses long n buf' qs wrote read =
          let (buf'', wrote', taken) = convert_to_txt-snoc in
          let pair : ◌≡◌ {A = Option (ℕ × Bytes)} (some (length text, buf'')) (some (n, buf')) =
            sym wrote' ∙ wrote in
          let n_eq : n ≡ length text = cc in
          let b_eq : buf' ≡ buf'' = cc in
          let whole : take n buf' ≡ text = rw (n_eq, b_eq) taken in
          let got : ◌≡◌ {A = Option (Option (List P))}
              (some (read_all I [] (map content ps ++ last_packet (content p)))) (some (some qs)) =
            sym parse_txt-text ∙ rw whole at read in
          let got' : read_all I [] (map content ps ++ last_packet (content p)) ≡ some qs = cc in
          let m = read_all-map [] (map content ps ++ last_packet (content p)) got' in
          let last = drop (length (content p) - 7) (content p) in
          let (e, shorter) = last_packet-cut (content p) long in
          let cut : map content qs ≡ map content ps ++ last ∷ [] =
            m ∙ ap (λ l. map content ps ++ l) e in
          (
            cut,
            λ same. omega (
              arith,
              ap total (sym cut ∙ same ∙ map-append content ps (p ∷ [])),
              total-append (map content ps) (last ∷ []),
              total-append (map content ps) (content p ∷ []),
              shorter,
            ),
          )
