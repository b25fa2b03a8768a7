-- ===== src/Mutators/Content.antt =====
-- fuzzer/src/mutators/content.rs. The mutator of one packet is an argument; it runs on the state's
-- random source, on the left, and on a state of its own.
use exim_fuzzer.Base.{
  ◌-◌, ◌<◌, ◌≡◌, refl, ◌==◌, if◌then◌else◌, length, get_elem?, get_elem?-total, length-set, arith,
}
use exim_fuzzer.Input.{PacketBasedInput}
use exim_fuzzer.Mutators.Outcome.{skipped}
use exim_fuzzer.Mutators.Token.{PacketResult, ok}
use exim_fuzzer.Rand.{Rand}
use exim_fuzzer.Run.{Run, pure, lift, on_left, ◌>>=◌, usize_sub}
use exim_fuzzer.Run.Ensures.{
  Ensures, Ensures-pure, Ensures-if, Ensures-bind, Ensures-lift-bind, Ensures-sub-bind,
  Ensures-on_left,
}
use exim_fuzzer.Token.WellFormed.{All, All-set, All-get_elem?}
use exim_fuzzer.Vec.{assign}
use exim_fuzzer.Vec.Laws.{assign-set}

module _ {P T : Type 0} (state_rand : Rand)
    (mutate_packet : P → Run (state_rand.State × T) (PacketResult × P)) where
  unfoldable pub packet_content :
      PacketBasedInput P → Run (state_rand.State × T) (PacketResult × PacketBasedInput P)
  packet_content packets = if length packets == 0 then pure (ok skipped, packets) else do
    last ← usize_sub (length packets) 1
    idx ← on_left (state_rand.between 0 last)
    packet ← lift (get_elem? packets idx)
    (result, packet') ← mutate_packet packet
    packets' ← lift (assign packets idx packet')
    pure (result, packets')

  -- Where the mutator of one packet never panics on a packet of which `Good` holds, and keeps `Good`,
  -- `PacketContentMutator` never panics on an input of such packets, and the input keeps `Good` of all
  -- its packets and their number, whatever the result.
  pub packet_content_lem :
      (Good : P → Type 0)
      → ((p : P) → Good p → Ensures (λ r. Good r.1) (mutate_packet p))
      → (packets : PacketBasedInput P) → All Good packets
      → Ensures (λ r. All Good r.1 × (length r.1 ≡ length packets)) (packet_content packets)
  unfolding packet_content
  packet_content_lem Good each packets good =
      Ensures-if (length packets == 0) (λ _. Ensures-pure _ (good, refl))
        λ go.
          let some_packet : 0 < length packets = ground arith in
          Ensures-sub-bind _ some_packet (
            Ensures-bind
              (Ensures-on_left (state_rand.between_lem 0 (length packets - 1) (omega arith)))
              λ idx hi.
                let (packet, e) = get_elem?-total packets idx (omega arith) in
                Ensures-lift-bind _ e (
                  Ensures-bind (each packet (All-get_elem? Good packets idx good e)) λ r ok'.
                    Ensures-lift-bind _ (assign-set packets idx r.1 (omega arith)) (
                      Ensures-pure _
                        (All-set Good packets idx r.1 good ok', length-set packets idx r.1))))
