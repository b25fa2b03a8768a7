-- ===== src/Campaign/Keeps/Mutators.antt =====
-- What every mutator of the fuzzer keeps of an input.
use exim_fuzzer.Base.{ℕ, ◌≤◌, ◌<◌, ◌^◌, ◌≡◌, sym, subst, Option, some, List, [], ◌∷◌, Bytes, arith}
use exim_fuzzer.Mutators.Content.{packet_content, packet_content_lem}
use exim_fuzzer.Mutators.Copy.{packet_copy, packet_repeat, packet_copy_lem, packet_repeat_lem}
use exim_fuzzer.Mutators.Create.{
  packet_create, packet_generate, packet_create_lem, packet_generate_lem,
}
use exim_fuzzer.Mutators.Crossover.{packet_crossover_lem}
use exim_fuzzer.Mutators.Move.{packet_delete, packet_swap, packet_delete_lem, packet_swap_lem}
use exim_fuzzer.Mutators.Outcome.{MutationResult, mutated, skipped, PacketOutcome, PacketDecided}
use exim_fuzzer.Mutators.Token.{mutate_packet}
use exim_fuzzer.Mutators.Token.InOrder.{mutate_packet-InOrder}
use exim_fuzzer.Mutate.Keeps.{InOrder}
use exim_fuzzer.Campaign.{Input, max_tokens, on_state, mutators}
use exim_fuzzer.Rand.{Rand}
use exim_fuzzer.Run.{Run}
use exim_fuzzer.Run.Ensures.{
  Ensures, Ensures-pure, Ensures-bind, Ensures-weaken, Ensures-on_left, Ensures-on_right,
}
use exim_fuzzer.Token.{TokenStream}
use exim_fuzzer.Token.Generate.{create_random_packet, generate_packets}
use exim_fuzzer.Token.Generate.Laws.{create_random_packet_lem, generate_packets_lem}
use exim_fuzzer.Token.Random.Laws.{All-Mem}
use exim_fuzzer.Token.WellFormed.{All, AllBytes, ◌▸◌}
use exim_fuzzer.Token.Parse.Next.{is_ascii}
use mathlib.Core.List.{Memᴰ}
use exim_fuzzer.Campaign.Keeps.{
  IsSound, All-weaken, streams-AllTokensOf, raise, Copied-Sound, Deleted-Sound, Repeated-Sound,
  Swapped-Sound, Inserted-Sound, crossed-Sound,
}

module _ (C : Bytes → Type 0) (state_rand own : Rand) (dict : Option (List Bytes))
    (random_corpus_id : List Input → Run own.State ℕ) (load : List Input → ℕ → Option Input)
    (least limit most : ℕ) (few : least ≤ 1) (within : 28 ≤ limit) (small : limit < 2 ^ 64)
    (enough : 19 ≤ most) (known : (d : List Bytes) → dict ≡ some d → All C d)
    (ascii_in : (b : Bytes) → AllBytes is_ascii b → C b) where
  abbrev Sound : Input → Type 0
  Sound = IsSound C least limit most

  on_state-Sound :
      (mutate : Input → Run state_rand.State (MutationResult × Input)) (packets : Input)
      → Ensures (λ r. Sound r.1) (mutate packets)
      → Ensures (λ r. Sound r.1) (on_state state_rand own dict random_corpus_id load mutate packets)
  unfolding on_state
  on_state-Sound mutate packets h = Ensures-bind (Ensures-on_left h) λ r k. Ensures-pure _ k

  module _ (packets : Input) (sound : Sound packets) where
    outcome-Sound :
        {Q : Input → Type 0} {m : Run state_rand.State (MutationResult × Input)}
        → ((packets' : Input) → Q packets' → Sound packets')
        → Ensures (PacketOutcome packets Q) m
        → Ensures (λ r. Sound r.1) m
    outcome-Sound {Q} keeps h = Ensures-weaken h go
      where
        go : (r : MutationResult × Input) → PacketOutcome packets Q r → Sound r.1
        go (mutated, p) q = keeps p q
        go (skipped, p) e = subst Sound (sym e) sound

    decided-Sound :
        {Q : Input → Type 0} {acts : _} {m : Run state_rand.State (MutationResult × Input)}
        → ((packets' : Input) → Q packets' → Sound packets')
        → Ensures (PacketDecided acts packets Q) m
        → Ensures (λ r. Sound r.1) m
    decided-Sound keeps h = outcome-Sound keeps (Ensures-weaken h λ r d. d.1)

    -- Every mutator of the list, with a corpus of sound inputs.
    pub mutators-Sound :
        (corpus : List Input) (current : Option ℕ)
        → Ensures (λ _. Unit {0}) (random_corpus_id corpus)
        → All Sound corpus
        → ((id : ℕ) (input : Input) → load corpus id ≡ some input → Memᴰ input corpus)
        → All
            (λ mutate. Ensures (λ r. Sound r.1) (mutate packets))
            (mutators state_rand own dict random_corpus_id load corpus current)
    unfolding mutators
    mutators-Sound corpus current draws stored loads =
        on_state-Sound (packet_copy R 16) packets (
          decided-Sound (Copied-Sound C least limit most few enough packets sound)
            (packet_copy_lem R 16 packets))
        ▸ on_state-Sound (packet_delete R 1) packets (
            decided-Sound (Deleted-Sound C least limit most few enough packets sound)
              (packet_delete_lem R 1 packets))
        ▸ on_state-Sound (packet_repeat R 16) packets (
            decided-Sound (Repeated-Sound C least limit most few enough packets sound)
              (packet_repeat_lem R 16 packets))
        ▸ on_state-Sound (packet_swap R) packets (
            outcome-Sound (Swapped-Sound C least limit most few enough packets sound)
              (packet_swap_lem R packets))
        ▸ content
        ▸ content
        ▸ content
        ▸ on_state-Sound (packet_create R (create_random_packet R) 16) packets (
            decided-Sound
              (λ p q.
                (Inserted-Sound C least limit most few enough packets sound) p one_random q.0
                  (omega (arith, q.1, enough)))
              (packet_create_lem R (InOrder C 16) _
                (Ensures-weaken (create_random_packet_lem C R) λ ts h. h.0) 16 packets))
        ▸ Ensures-on_right (
            Ensures-weaken
              (packet_crossover_lem own (random_corpus_id corpus) current (load corpus) draws 16
                packets)
              (crossed-Sound C least limit most few enough packets sound corpus current load stored
                loads))
        ▸ on_state-Sound (packet_generate R (generate_packets R) 16) packets (
            decided-Sound
              (λ p q.
                (Inserted-Sound C least limit most few enough packets sound) p
                  (All-weaken (raise C within)) q.0 (omega (arith, q.1, enough)))
              (packet_generate_lem R (All (InOrder C 28)) _ 4
                (Ensures-weaken (generate_packets_lem C R ascii_in) λ ps h. (h.0, h.2)) 16 packets))
        ▸ tt
      where
        R : Rand
        R = state_rand

        one_random :
            (new : Input)
            → (p : TokenStream) × (new ≡ p ∷ []) × InOrder C 16 p
            → All (InOrder C limit) new
        one_random new (p, e, good) =
            subst (All (InOrder C limit)) (sym e) (raise C (omega arith) p good, tt)

        content :
            Ensures
              (λ r. Sound r.1)
              (packet_content state_rand
                (mutate_packet own max_tokens dict
                  (random_corpus_id corpus)
                  current
                  (load corpus)
                  state_rand)
                packets)
        content =
            Ensures-weaken
              (packet_content_lem state_rand _ (InOrder C limit)
                (mutate_packet-InOrder C own max_tokens limit dict (random_corpus_id corpus) current
                  (load corpus) draws
                  (λ id ps e.
                    streams-AllTokensOf C limit ps
                      (All-Mem Sound ps corpus stored (loads id ps e)).0)
                  known (omega arith) small state_rand)
                packets sound.0)
              (λ r h. (h.0, omega (arith, h.1, sound.1), omega (arith, h.1, sound.2)))
