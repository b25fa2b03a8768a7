-- ===== src/Mutators/Copy.antt =====
-- fuzzer/src/mutators/copy.rs and repeat.rs. The field `max_length` is an argument.
use mathlib.Core.List.{Memᴰ}
use exim_fuzzer.Base.{
  ap, sym, not, ℕ, ◌+◌, ◌-◌, ◌≤◌, ◌<◌, ◌≡◌, refl, ◌||◌, some, List, [], ◌∷◌, ◌++◌, leb, ◌==◌,
  if◌then◌else◌, length, get_elem?, get_elem?-total, arith, take, drop, replicate, length-replicate,
  get_elem?-Mem,
}
use exim_fuzzer.Input.{PacketBasedInput}
use exim_fuzzer.Mutators.Outcome.{MutationResult, mutated, skipped, PacketDecided}
use exim_fuzzer.Rand.{Rand}
use exim_fuzzer.Rand.Rules.{Ensures-between}
use exim_fuzzer.Run.{Run, pure, lift, ◌>>=◌, usize_sub}
use exim_fuzzer.Run.Ensures.{Ensures, Ensures-pure, Ensures-if, Ensures-lift-bind, Ensures-sub-bind}
use exim_fuzzer.Vec.{range, splice, insert}
use exim_fuzzer.Vec.Laws.{Spliced, splice-empty, inserted-Spliced, insert-inserted, length-Spliced}

-- One packet of the input stands once more, at any place.
pub record PacketCopied {P : Type 0} (packets : List P) (max_length : ℕ) (packets' : List P)
    : Type 0 where
  pub packet : P
  pub present : Memᴰ packet packets
  pub splice : Spliced packets [] (packet ∷ []) packets'
  pub bound : length packets' ≤ max_length

-- The packet at `here` stands `count` times more in front of itself.
pub record PacketRepeated {P : Type 0} (packets : List P) (max_length : ℕ) (packets' : List P)
    : Type 0 where
  pub packet : P
  pub here : ℕ
  pub at : get_elem? packets here ≡ some packet
  pub count : ℕ
  pub not_none : 0 < count
  pub splice : packets' ≡ take here packets ++ (replicate count packet ++ drop here packets)
  pub bound : length packets' ≤ max_length

module _ {P : Type 0} (R : Rand) where
  open R use {State, between}

  unfoldable pub packet_copy :
      ℕ → PacketBasedInput P → Run State (MutationResult × PacketBasedInput P)
  packet_copy max_length packets =
      if length packets == 0 || leb max_length (length packets) then pure (skipped, packets) else do
        to ← between 0 (length packets)
        last ← usize_sub (length packets) 1
        from ← between 0 last
        packet ← lift (get_elem? packets from)
        packets' ← lift (insert packets to packet)
        pure (mutated, packets')

  -- The subtractions are `self.max_length - len` and then a saturating one.
  unfoldable pub packet_repeat :
      ℕ → PacketBasedInput P → Run State (MutationResult × PacketBasedInput P)
  packet_repeat max_length packets =
      if length packets == 0 || leb max_length (length packets) then pure (skipped, packets) else do
        last ← usize_sub (length packets) 1
        idx ← between 0 last
        room ← usize_sub max_length (length packets)
        more ← between 0 (room - 1)
        let n = 1 + more
        packet ← lift (get_elem? packets idx)
        (packets', _) ← lift (splice packets (range idx idx) (replicate n packet))
        pure (mutated, packets')

  -- `PacketCopyMutator` never panics. On an input that is not empty and shorter than the bound it
  -- mutates, and inserts a copy of one packet of the input, within the bound; on any other it
  -- skips and leaves the packets alone.
  pub packet_copy_lem :
      (max_length : ℕ) (packets : PacketBasedInput P)
      → Ensures
          (PacketDecided
            (not (length packets == 0 || leb max_length (length packets)))
            packets
            (PacketCopied packets max_length))
          (packet_copy max_length packets)
  unfolding packet_copy
  packet_copy_lem max_length packets =
      Ensures-if (length packets == 0 || leb max_length (length packets))
        (λ no. Ensures-pure _ (ap not (sym no), refl))
        λ go.
          let some_packet : 0 < length packets = ground arith in
          let room : length packets < max_length = ground arith in
          Ensures-between R 0 (length packets) (omega arith) λ to ht.
            Ensures-sub-bind _ some_packet (
              Ensures-between R 0 (length packets - 1) (omega arith) λ from hf.
                let (packet, e) = get_elem?-total packets from (omega arith) in
                let s = inserted-Spliced packets to (packet ∷ []) in
                Ensures-lift-bind _ e (
                  Ensures-lift-bind _ (insert-inserted packets to packet ht.1) (
                    Ensures-pure _ (
                      ap not (sym go),
                      record {
                        packet = packet;
                        present = get_elem?-Mem packets from e;
                        splice = s;
                        bound = omega (arith, length-Spliced s);
                      },
                    ))))

  -- `PacketRepeatMutator` never panics. On an input that is not empty and shorter than the bound
  -- it mutates, and repeats one packet in front of itself at least once and within the bound; on
  -- any other it skips and leaves the packets alone.
  pub packet_repeat_lem :
      (max_length : ℕ) (packets : PacketBasedInput P)
      → Ensures
          (PacketDecided
            (not (length packets == 0 || leb max_length (length packets)))
            packets
            (PacketRepeated packets max_length))
          (packet_repeat max_length packets)
  unfolding packet_repeat
  packet_repeat_lem max_length packets =
      Ensures-if (length packets == 0 || leb max_length (length packets))
        (λ no. Ensures-pure _ (ap not (sym no), refl))
        λ go.
          let some_packet : 0 < length packets = ground arith in
          let room : length packets < max_length = ground arith in
          Ensures-sub-bind _ some_packet (
            Ensures-between R 0 (length packets - 1) (omega arith) λ idx hi.
              Ensures-sub-bind _ (omega arith) (
                Ensures-between R 0 (max_length - length packets - 1) (omega arith) λ more hm.
                  let (packet, e) = get_elem?-total packets idx (omega arith) in
                  let new = replicate (1 + more) packet in
                  Ensures-lift-bind _ e (
                    Ensures-lift-bind _ (splice-empty packets idx new (omega arith)) (
                      Ensures-pure _ (
                        ap not (sym go),
                        record {
                          packet = packet;
                          here = idx;
                          at = e;
                          count = 1 + more;
                          not_none = omega arith;
                          splice = refl;
                          bound = omega (
                            arith,
                            length-Spliced (inserted-Spliced packets idx new),
                            length-replicate (1 + more) packet,
                          );
                        },
                      )))))
