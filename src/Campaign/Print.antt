-- ===== src/Campaign/Print.antt =====
-- `PacketBasedInput::from_file` in fuzzer/src/input.rs and `print` in fuzzer/src/main.rs, which prints an
-- input of a file. Parameters: what the file system has, what the extension of a path is, the reader of
-- the crate postcard, and the format `{:#?}`, where `none` is an error of it, such as the repository's
-- `Debug` gives for a token that is no UTF-8: `println!` then panics. An outer `none` is a panic, an inner
-- one an `Err`.
use exim_fuzzer.Base.{
  ℕ, ◌-◌, ◌≤◌, ◌≡◌, refl, sym, subst, ◌∙◌, append_assoc, take-length-append, ap, Bool, true, false,
  Option, none, some, List, [], ◌∷◌, ◌++◌, Bytes, leb, le→leb, length, length-append,
  length-replicate, take, drop, replicate, arith,
}
use exim_fuzzer.Fallible.{◌>>=◌}
use exim_fuzzer.Input.{PacketBasedInput, separator, convert_to_txt, parse_txt}
use exim_fuzzer.Input.Convert.{framed, convert_to_txt_lem}
use exim_fuzzer.Packet.{Packet}
use exim_fuzzer.Vec.{range, slice}
use exim_fuzzer.Vec.Laws.{slice-part}

module _ {FilePath P : Type 0} (I : Packet P) (read : FilePath → Option Bytes)
    (is_txt : FilePath → Bool) (from_bytes : Bytes → Option (PacketBasedInput P))
    (debug_format : PacketBasedInput P → Option Bytes) where
  abbrev parse_file : Bool → Bytes → Option (Option (PacketBasedInput P))
  parse_file true bytes = parse_txt I bytes
  parse_file false bytes = some (from_bytes bytes)

  unfoldable pub from_file : FilePath → Option (Option (PacketBasedInput P))
  from_file path = elim (read path) [
    | none ↦ some none
    | some bytes ↦ parse_file (is_txt path) bytes
  ]

  -- What is written to the standard output. The buffer has `size` bytes, for which the source has
  -- `PACKET_BUFFER_SIZE`.
  abbrev printed : ℕ → Bool → PacketBasedInput P → Option Bytes
  printed size true input = debug_format input
  printed size false input = do
    (len, buf) ← convert_to_txt I input (replicate size 0)
    slice buf (range 0 len)

  unfoldable pub print : ℕ → Bool → FilePath → Option (Option Bytes)
  print size debug path = do
    file ← from_file path
    elim file [
      | none ↦ some none
      | some input ↦ do text ← printed size debug input; some (some text)
    ]

  open I use {content}

  -- The text of an input: its packets with separators between them.
  abbrev pub text : PacketBasedInput P → Bytes
  text [] = []
  text (p ∷ []) = content p
  text (p ∷ q ∷ ps) = content p ++ (separator ++ text (q ∷ ps))

  framed-text : (p : P) (ps : List P) → framed I (p ∷ ps) ≡ text (p ∷ ps) ++ separator
  framed-text p [] = refl
  framed-text p (q ∷ ps) =
      ap (λ (x : Bytes). content p ++ (separator ++ x)) (framed-text q ps)
      ∙ sym (append_assoc (content p) (separator ++ text (q ∷ ps)) separator)

  -- The text in front of anything.
  take-framed :
      (input : PacketBasedInput P) (rest : Bytes)
      → take (length (framed I input) - 8) (framed I input ++ rest) ≡ text input
  take-framed [] rest = refl
  take-framed (p ∷ ps) rest =
      let t = text (p ∷ ps) in
      let len : length (t ++ separator) - 8 ≡ length t = omega (arith, length-append t separator) in
      let cut : take (length (t ++ separator) - 8) ((t ++ separator) ++ rest) ≡ t =
        rw (len, append_assoc) (take-length-append t (separator ++ rest)) in
      subst (λ f. take (length f - 8) (f ++ rest) ≡ t) (sym (framed-text p ps)) cut

  -- Where the file can be read as an input whose text, with a separator behind each packet, fits into the
  -- buffer, `print` without `debug` never panics, and writes the packets with separators between them.
  pub print_lem :
      (size : ℕ) (path : FilePath) (input : PacketBasedInput P)
      → from_file path ≡ some (some input)
      → length (framed I input) ≤ size
      → print size false path ≡ some (some (text input))
  unfolding print
  print_lem size path input e h =
      let f = framed I input in
      let empty : Bytes = replicate size 0 in
      let fits : leb (length f) (length empty) ≡ true =
        le→leb _ _ (omega (arith, length-replicate {A = ℕ} size 0)) in
      let buf = f ++ drop (length f) empty in
      let inside : length f - 8 ≤ length buf =
        omega (arith, length-append f (drop (length f) empty)) in
      let cut : slice buf (range 0 (length f - 8)) ≡ some (text input) =
        slice-part buf (range 0 (length f - 8)) (omega arith) inside
        ∙ ap (λ (n : ℕ). some (take n buf)) (omega arith)
        ∙ ap some (take-framed input (drop (length f) empty)) in
      rw (e, convert_to_txt_lem I input empty, fits, cut) refl
