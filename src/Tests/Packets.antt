-- ===== src/Tests/Packets.antt =====
-- The mutators of packets, at an input of three byte packets.
use exim_fuzzer.Base.{
  ◌<◌, ◌+◌, ◌≡◌, refl, not, ◌||◌, ◌==◌, some, List, [], ◌∷◌, Bytes, codes, arith, leb, length,
}
use exim_fuzzer.Input.{PacketBasedInput}
use exim_fuzzer.Mutators.Outcome.{PacketDecided, mutated}
use exim_fuzzer.Mutators.Copy.{PacketRepeated, packet_repeat, packet_repeat_lem}
use exim_fuzzer.Mutators.Create.{PacketsInserted, packet_generate, packet_generate_lem}
use exim_fuzzer.Mutators.Move.{PacketDeleted, packet_delete, packet_delete_lem}
use exim_fuzzer.Run.{pure, ◌>>=◌}
use exim_fuzzer.Run.Ensures.{Ensures, Ensures-pure}
use exim_fuzzer.Vec.{splice}
use exim_fuzzer.Tests.Counter.{counter}

abbrev session : PacketBasedInput Bytes
session = codes "EHLO" ∷ codes "DATA" ∷ codes "QUIT" ∷ []

-- A generator that always gives the same packets.
abbrev two_packets : List Bytes
two_packets = codes "RSET" ∷ codes "NOOP" ∷ []

packet_repeat_lem_example :
    Ensures
      (PacketDecided
        (not (length session == 0 || leb 8 (length session)))
        session
        (PacketRepeated session 8))
      (packet_repeat counter 8 session)
packet_repeat_lem_example = packet_repeat_lem counter 8 session

packet_delete_lem_example :
    Ensures
      (PacketDecided
        (not (length session == 0 || leb (length session) 1))
        session
        (PacketDeleted session 1))
      (packet_delete counter 1 session)
packet_delete_lem_example = packet_delete_lem counter 1 session

-- The bound is passed: three packets, a bound of four, and five packets in the end.
packet_generate_lem_example :
    Ensures
      (PacketDecided (not (leb 4 (length session))) session λ packets'.
        PacketsInserted (λ new. new ≡ two_packets) session packets' × (length packets' < 4 + 2))
      (packet_generate counter (pure two_packets) 4 session)
packet_generate_lem_example =
    packet_generate_lem counter (λ new. new ≡ two_packets) (pure two_packets) 2
      (Ensures-pure two_packets (refl, omega arith)) 4 session

generates :
    packet_generate counter (pure two_packets) 4 session 3
    ≡ some ((mutated, codes "EHLO" ∷ codes "DATA" ∷ codes "QUIT" ∷ two_packets), 4)
unfolding packet_generate ◌>>=◌ splice
generates = refl
