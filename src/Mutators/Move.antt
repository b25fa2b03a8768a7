-- ===== src/Mutators/Move.antt =====
-- fuzzer/src/mutators/delete.rs and swap.rs. The field `min_length` is an argument.
use exim_fuzzer.Base.{
  ap, sym, not, ℕ, ◌-◌, ◌≤◌, ◌<◌, ◌≢◌, refl, ◌||◌, List, [], ◌∷◌, leb, ◌==◌, if◌then◌else◌, length,
  get_elem?-total, arith,
}
use exim_fuzzer.Input.{PacketBasedInput}
use exim_fuzzer.Mutators.Outcome.{MutationResult, mutated, skipped, PacketOutcome, PacketDecided}
use exim_fuzzer.Rand.{Rand}
use exim_fuzzer.Rand.Rules.{Ensures-between}
use exim_fuzzer.Run.{Run, pure, lift, ◌>>=◌, usize_sub}
use exim_fuzzer.Run.Ensures.{Ensures, Ensures-pure, Ensures-if, Ensures-lift-bind, Ensures-sub-bind}
use exim_fuzzer.Vec.{remove, swap}
use exim_fuzzer.Vec.Laws.{Spliced, length-Spliced, remove-Spliced}
use exim_fuzzer.Vec.Exchange.{Exchanged, swap-set, set-Exchanged}

-- One packet is gone, and at least `min_length` are left.
pub record PacketDeleted {P : Type 0} (packets : List P) (min_length : ℕ) (packets' : List P)
    : Type 0 where
  pub packet : P
  pub splice : Spliced packets (packet ∷ []) [] packets'
  pub bound : min_length ≤ length packets'

-- Two packets change places.
pub record PacketsSwapped {P : Type 0} (packets packets' : List P) : Type 0 where
  pub to : ℕ
  pub from : ℕ
  pub exchanged : Exchanged packets to from packets'

module _ {P : Type 0} (R : Rand) where
  open R use {State, between}

  unfoldable pub packet_delete :
      ℕ → PacketBasedInput P → Run State (MutationResult × PacketBasedInput P)
  packet_delete min_length packets =
      if length packets == 0 || leb (length packets) min_length then pure (skipped, packets) else do
        last ← usize_sub (length packets) 1
        idx ← between 0 last
        packets' ← lift (remove packets idx)
        pure (mutated, packets')

  unfoldable pub packet_swap : PacketBasedInput P → Run State (MutationResult × PacketBasedInput P)
  packet_swap packets = if leb (length packets) 1 then pure (skipped, packets) else do
    last ← usize_sub (length packets) 1
    to ← between 0 last
    from ← between 0 last
    if to == from
        then pure (skipped, packets)
        else do packets' ← lift (swap packets to from); pure (mutated, packets')

  -- `PacketDeleteMutator` never panics. On an input that is not empty and longer than `min_length`
  -- it mutates, and removes one packet; on any other it skips and leaves the packets alone. So at
  -- least `min_length` packets are left of what it mutates.
  pub packet_delete_lem :
      (min_length : ℕ) (packets : PacketBasedInput P)
      → Ensures
          (PacketDecided
            (not (length packets == 0 || leb (length packets) min_length))
            packets
            (PacketDeleted packets min_length))
          (packet_delete min_length packets)
  unfolding packet_delete
  packet_delete_lem min_length packets =
      Ensures-if (length packets == 0 || leb (length packets) min_length)
        (λ no. Ensures-pure _ (ap not (sym no), refl))
        λ go.
          let some_packet : 0 < length packets = ground arith in
          let enough : min_length < length packets = ground arith in
          Ensures-sub-bind _ some_packet (
            Ensures-between R 0 (length packets - 1) (omega arith) λ idx hi.
              let (packet, e) = get_elem?-total packets idx (omega arith) in
              let (gone, s) = remove-Spliced packets idx e in
              Ensures-lift-bind _ gone (
                Ensures-pure _ (
                  ap not (sym go),
                  record { packet = packet; splice = s; bound = omega (arith, length-Spliced s) },
                )))

  -- `PacketSwapMutator` never panics, and makes two packets at different places change places, or
  -- skips and leaves the packets alone.
  pub packet_swap_lem :
      (packets : PacketBasedInput P)
      → Ensures (PacketOutcome packets (PacketsSwapped packets)) (packet_swap packets)
  unfolding packet_swap
  packet_swap_lem packets =
      Ensures-if (leb (length packets) 1) (λ _. Ensures-pure _ refl)
        λ go.
          let two : 1 < length packets = ground arith in
          Ensures-sub-bind _ (omega arith) (
            Ensures-between R 0 (length packets - 1) (omega arith) λ to ht.
              Ensures-between R 0 (length packets - 1) (omega arith) λ from hf.
                Ensures-if (to == from) (λ _. Ensures-pure _ refl)
                  λ differ.
                    let (x, e) = get_elem?-total packets to (omega arith) in
                    let (y, f) = get_elem?-total packets from (omega arith) in
                    let d : to ≢ from = λ same. ground arith in
                    Ensures-lift-bind _ (swap-set packets to from e f) (
                      Ensures-pure _ (record {
                        to = to;
                        from = from;
                        exchanged = set-Exchanged packets to from d e f;
                      })))
