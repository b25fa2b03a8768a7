-- ===== src/Mutators/Create.antt =====
-- fuzzer/src/mutators/create.rs and generate.rs. The methods of the traits that they call,
-- `create_random_packet` and `generate_packets`, are arguments, as is the field `max_packets`.
use exim_fuzzer.Base.{
  ap, sym, not, ℕ, ◌+◌, ◌≤◌, ◌<◌, ◌≡◌, refl, List, [], ◌∷◌, leb, if◌then◌else◌, length, arith,
}
use exim_fuzzer.Input.{PacketBasedInput}
use exim_fuzzer.Mutators.Outcome.{MutationResult, mutated, skipped, PacketDecided}
use exim_fuzzer.Rand.{Rand}
use exim_fuzzer.Rand.Rules.{Ensures-between}
use exim_fuzzer.Run.{Run, pure, lift, ◌>>=◌}
use exim_fuzzer.Run.Ensures.{Ensures, Ensures-pure, Ensures-if, Ensures-bind, Ensures-lift-bind}
use exim_fuzzer.Vec.{range, splice, insert}
use exim_fuzzer.Vec.Laws.{Spliced, splice-empty, inserted-Spliced, insert-inserted, length-Spliced}

-- Packets of which `Good` holds are inserted at some place.
pub record PacketsInserted {P : Type 0} (Good : List P → Type 0) (packets packets' : List P)
    : Type 0 where
  pub new : List P
  pub good : Good new
  pub splice : Spliced packets [] new packets'

module _ {P : Type 0} (R : Rand) where
  open R use {State, between}

  unfoldable pub packet_create :
      Run State P → ℕ → PacketBasedInput P → Run State (MutationResult × PacketBasedInput P)
  packet_create create_random_packet max_packets packets =
      if leb max_packets (length packets) then pure (skipped, packets) else do
        idx ← between 0 (length packets)
        new_packet ← create_random_packet
        packets' ← lift (insert packets idx new_packet)
        pure (mutated, packets')

  unfoldable pub packet_generate :
      Run State (List P) → ℕ → PacketBasedInput P → Run State (MutationResult × PacketBasedInput P)
  packet_generate generate_packets max_packets packets =
      if leb max_packets (length packets) then pure (skipped, packets) else do
        idx ← between 0 (length packets)
        new_packets ← generate_packets
        (packets', _) ← lift (splice packets (range idx idx) new_packets)
        pure (mutated, packets')

  module _ (Good : P → Type 0) (create_random_packet : Run State P)
      (creates : Ensures Good create_random_packet) where
    -- Where creating a packet does not panic, `RandomPacketInsertionMutator` does not. On an input
    -- shorter than the bound it mutates, and inserts one new packet, within the bound; on any
    -- other it skips and leaves the packets alone.
    pub packet_create_lem :
        (max_packets : ℕ) (packets : PacketBasedInput P)
        → Ensures
            (PacketDecided (not (leb max_packets (length packets))) packets λ packets'.
              PacketsInserted (λ new. (p : P) × (new ≡ p ∷ []) × Good p) packets packets'
              × (length packets' ≤ max_packets))
            (packet_create create_random_packet max_packets packets)
    unfolding packet_create
    packet_create_lem max_packets packets =
        Ensures-if (leb max_packets (length packets)) (λ no. Ensures-pure _ (ap not (sym no), refl))
          λ go.
            let room : length packets < max_packets = ground arith in
            Ensures-between R 0 (length packets) (omega arith) λ idx hi.
              Ensures-bind creates λ p good.
                let s = inserted-Spliced packets idx (p ∷ []) in
                Ensures-lift-bind _ (insert-inserted packets idx p hi.1) (
                  Ensures-pure _ (
                    ap not (sym go),
                    (
                      record { new = p ∷ []; good = (p, refl, good); splice = s },
                      omega (arith, length-Spliced s),
                    ),
                  ))

  module _ (Good : List P → Type 0) (generate_packets : Run State (List P)) (most : ℕ)
      (generates : Ensures (λ new. Good new × (length new ≤ most)) generate_packets) where
    -- Where generating packets does not panic and gives at most `most`, `PacketGenerationMutator`
    -- does not panic. On an input shorter than `max_packets` it mutates, and inserts all new
    -- packets, so that it may then have up to `most - 1` packets more than `max_packets`; on any
    -- other it skips and leaves the packets alone.
    pub packet_generate_lem :
        (max_packets : ℕ) (packets : PacketBasedInput P)
        → Ensures
            (PacketDecided (not (leb max_packets (length packets))) packets λ packets'.
              PacketsInserted Good packets packets' × (length packets' < max_packets + most))
            (packet_generate generate_packets max_packets packets)
    unfolding packet_generate
    packet_generate_lem max_packets packets =
        Ensures-if (leb max_packets (length packets)) (λ no. Ensures-pure _ (ap not (sym no), refl))
          λ go.
            let room : length packets < max_packets = ground arith in
            Ensures-between R 0 (length packets) (omega arith) λ idx hi.
              Ensures-bind generates λ new (good, few).
                let s = inserted-Spliced packets idx new in
                Ensures-lift-bind _ (splice-empty packets idx new hi.1) (
                  Ensures-pure _ (
                    ap not (sym go),
                    (
                      record { new = new; good = good; splice = s },
                      omega (arith, length-Spliced s),
                    ),
                  ))
