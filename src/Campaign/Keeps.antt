-- ===== src/Campaign/Keeps.antt =====
-- What every mutator of the fuzzer keeps of an input: the streams in order, and bounds on the number
-- of packets.
pub mod Mutators
use exim_fuzzer.Base.{
  ℕ, ◌≤◌, ◌<◌, ◌^◌, ◌≡◌, sym, subst, ap, Option, some, List, [], ◌∷◌, Bytes, length, arith,
}
use exim_fuzzer.Mutators.Content.{packet_content, packet_content_lem}
use exim_fuzzer.Mutators.Copy.{
  PacketCopied, PacketRepeated, packet_copy, packet_repeat, packet_copy_lem, packet_repeat_lem,
}
use exim_fuzzer.Mutators.Create.{
  PacketsInserted, packet_create, packet_generate, packet_create_lem, packet_generate_lem,
}
use exim_fuzzer.Mutators.Crossover.{CrossOutcome, PacketCrossed, packet_crossover_lem}
use exim_fuzzer.Mutators.Move.{
  PacketDeleted, PacketsSwapped, packet_delete, packet_swap, packet_delete_lem, packet_swap_lem,
}
use exim_fuzzer.Mutators.Outcome.{MutationResult, mutated, skipped, PacketOutcome, PacketDecided}
use exim_fuzzer.Mutators.Token.{PacketResult, ok, err, mutate_packet}
use exim_fuzzer.Mutators.Token.InOrder.{mutate_packet-InOrder}
use exim_fuzzer.Mutate.Keeps.{InOrder, All-Spliced, All-Exchanged}
use exim_fuzzer.Campaign.{Input, max_packets, max_tokens, on_state, mutators}
use exim_fuzzer.Rand.{Rand}
use exim_fuzzer.Run.{Run}
use exim_fuzzer.Run.Ensures.{
  Ensures, Ensures-pure, Ensures-bind, Ensures-weaken, Ensures-on_left, Ensures-on_right,
}
use exim_fuzzer.Token.{TokenStream}
use exim_fuzzer.Token.Constants.{AllTokensOf}
use exim_fuzzer.Token.Generate.{create_random_packet, generate_packets}
use exim_fuzzer.Token.Generate.Laws.{create_random_packet_lem, generate_packets_lem}
use exim_fuzzer.Token.Random.Laws.{All-Mem}
use exim_fuzzer.Token.WellFormed.{All, AllWellFormed}
use exim_fuzzer.Token.WellFormed.Parts.{All-repeat, length-repeat}
use exim_fuzzer.Vec.Laws.{length-Spliced}
use mathlib.Core.List.{Memᴰ}

-- From `least` to `most` packets, each a stream of at most `limit` well-formed tokens, whose constants
-- have the property `C`.
abbrev pub IsSound : (Bytes → Type 0) → ℕ → ℕ → ℕ → Input → Type 0
IsSound C least limit most packets =
    All (InOrder C limit) packets × (least ≤ length packets) × (length packets ≤ most)

pub All-weaken :
    {A : Type 0} {P Q : A → Type 0} → ((a : A) → P a → Q a) → (xs : List A) → All P xs → All Q xs
All-weaken f [] h = tt
All-weaken f (x ∷ xs) h = (f x h.0, All-weaken f xs h.1)

pub streams-AllTokensOf :
    (C : Bytes → Type 0) (limit : ℕ) (ps : Input)
    → All (InOrder C limit) ps
    → All (AllTokensOf C) ps
streams-AllTokensOf C limit ps h = All-weaken (λ p good. good.0) ps h

pub raise :
    (C : Bytes → Type 0) {limit limit' : ℕ}
    → limit ≤ limit'
    → (p : TokenStream) → InOrder C limit p
    → InOrder C limit' p
raise C h p good = (good.0, omega (arith, good.1))

-- What the mutators of packets do keeps an input sound.
module _ (C : Bytes → Type 0) (least limit most : ℕ) (few : least ≤ 1) (enough : 19 ≤ most)
    (packets : Input) (sound : IsSound C least limit most packets) where
  abbrev Sound : Input → Type 0
  Sound = IsSound C least limit most

  pub Copied-Sound : (p : Input) → PacketCopied packets max_packets p → Sound p
  Copied-Sound p q = (
    All-Spliced (InOrder C limit) q.splice sound.0
        (All-Mem (InOrder C limit) q.packet packets sound.0 q.present, tt),
    omega (arith, length-Spliced q.splice, few),
    omega (arith, q.bound, enough),
  )

  pub Deleted-Sound : (p : Input) → PacketDeleted packets 1 p → Sound p
  Deleted-Sound p q = (
    All-Spliced (InOrder C limit) q.splice sound.0 tt,
    omega (arith, q.bound, few),
    omega (arith, length-Spliced q.splice, sound.2),
  )

  pub Repeated-Sound : (p : Input) → PacketRepeated packets max_packets p → Sound p
  Repeated-Sound p q = (
    subst (All (InOrder C limit)) (sym q.splice)
        (All-repeat (InOrder C limit) packets q.here q.count sound.0 q.at),
    omega (arith, length-repeat packets q.here q.count q.at, ap length q.splice, sound.1),
    omega (arith, q.bound, enough),
  )

  pub Swapped-Sound : (p : Input) → PacketsSwapped packets p → Sound p
  Swapped-Sound p q = (
    All-Exchanged (InOrder C limit) q.to q.from q.exchanged sound.0,
    omega (arith, q.exchanged.same_length, sound.1),
    omega (arith, q.exchanged.same_length, sound.2),
  )

  pub Inserted-Sound :
      {Good : Input → Type 0} (p : Input)
      → ((new : Input) → Good new → All (InOrder C limit) new)
      → PacketsInserted Good packets p
      → length p ≤ most
      → Sound p
  Inserted-Sound p each q few = (
    All-Spliced (InOrder C limit) q.splice sound.0 (each q.new q.good),
    omega (arith, length-Spliced q.splice, sound.1),
    few,
  )

  pub crossed-Sound :
      (corpus : List Input) (current : Option ℕ) (load : List Input → ℕ → Option Input)
      → All Sound corpus
      → ((id : ℕ) (input : Input) → load corpus id ≡ some input → Memᴰ input corpus)
      → (r : PacketResult × Input)
      → CrossOutcome packets (PacketCrossed current (load corpus) packets max_packets) r
      → Sound r.1
  crossed-Sound corpus current load stored loads (ok mutated, p) q =
      let other = All-Mem Sound q.others corpus stored (loads q.id q.others q.loaded) in
      (
        All-Spliced (InOrder C limit) q.splice sound.0
            (All-Mem (InOrder C limit) q.packet q.others other.0 q.present, tt),
        omega (arith, length-Spliced q.splice, few),
        omega (arith, q.bound, enough),
      )
  crossed-Sound corpus current load stored loads (ok skipped, p) e = subst Sound (sym e) sound
  crossed-Sound corpus current load stored loads (err, p) e = subst Sound (sym e) sound
