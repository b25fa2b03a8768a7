-- ===== src/Mutators/Crossover.antt =====
-- fuzzer/src/mutators/crossover.rs. The corpus is a parameter as in Mutators/Token.
use mathlib.Core.List.{Memᴰ}
use exim_fuzzer.Base.{
  ℕ, ◌-◌, ◌≤◌, ◌<◌, ◌≡◌, refl, false, Option, none, some, List, [], ◌∷◌, leb, ◌==◌, if◌then◌else◌,
  length, get_elem?, get_elem?-total, get_elem?-Mem, arith, inl, inr, Option-cases,
}
use exim_fuzzer.Input.{PacketBasedInput}
use exim_fuzzer.Mutators.Outcome.{mutated, skipped}
use exim_fuzzer.Mutators.Token.{PacketResult, ok, err, is_current}
use exim_fuzzer.Rand.{Rand}
use exim_fuzzer.Rand.Rules.{Ensures-between}
use exim_fuzzer.Run.{Run, pure, lift, ◌>>=◌, usize_sub}
use exim_fuzzer.Run.Ensures.{
  Ensures, Ensures-pure, Ensures-if, Ensures-bind, Ensures-lift-bind, Ensures-sub-bind,
}
use exim_fuzzer.Vec.{insert}
use exim_fuzzer.Vec.Laws.{Spliced, inserted-Spliced, insert-inserted, length-Spliced}

-- A packet of an input of the corpus that is not the current one stands at some place.
pub record PacketCrossed {P : Type 0} (current : Option ℕ) (load : ℕ → Option (List P))
    (packets : List P) (max_length : ℕ) (packets' : List P) : Type 0 where
  pub id : ℕ
  pub others : List P
  pub loaded : load id ≡ some others
  pub not_current : is_current current id ≡ false
  pub packet : P
  pub present : Memᴰ packet others
  pub splice : Spliced packets [] (packet ∷ []) packets'
  pub bound : length packets' ≤ max_length

abbrev pub CrossOutcome : {P : Type 0} → List P → (List P → Type 0) → PacketResult × List P → Type 0
CrossOutcome packets Q (ok mutated, packets') = Q packets'
CrossOutcome packets Q (ok skipped, packets') = packets' ≡ packets
CrossOutcome packets Q (err, packets') = packets' ≡ packets

module _ {P : Type 0} (R : Rand) (random_corpus_id : Run R.State ℕ) (current : Option ℕ)
    (load : ℕ → Option (List P)) where
  open R use {State, between}

  unfoldable pub packet_crossover :
      ℕ → PacketBasedInput P → Run State (PacketResult × PacketBasedInput P)
  packet_crossover max_length packets =
      if leb max_length (length packets) then pure (ok skipped, packets) else do
        id ← random_corpus_id
        if is_current current id then pure (ok skipped, packets) else elim (load id) [
          | none ↦ pure (err, packets)
          | some others ↦ if length others == 0 then pure (ok skipped, packets) else do
            last ← usize_sub (length others) 1
            i ← between 0 last
            other_packet ← lift (get_elem? others i)
            idx ← between 0 (length packets)
            packets' ← lift (insert packets idx other_packet)
            pure (ok mutated, packets')
        ]

  -- Where drawing an id from the corpus does not panic, `PacketCrossoverMutator` does not. It inserts a
  -- packet of another input of the corpus, within the bound on the length, or skips or returns an
  -- error and leaves the packets alone.
  pub packet_crossover_lem :
      Ensures (λ _. Unit {0}) random_corpus_id
      → (max_length : ℕ) (packets : PacketBasedInput P)
      → Ensures
          (CrossOutcome packets (PacketCrossed current load packets max_length))
          (packet_crossover max_length packets)
  unfolding packet_crossover
  packet_crossover_lem draws max_length packets =
      Ensures-if (leb max_length (length packets)) (λ _. Ensures-pure _ refl)
        λ go.
          let room : length packets < max_length = ground arith in
          Ensures-bind draws λ id _.
            Ensures-if (is_current current id) (λ _. Ensures-pure _ refl)
              λ other. elim (Option-cases (load id)) [
                | inl e ↦ rw (e, packet_crossover) (Ensures-pure _ refl)
                | inr (others, e) ↦
                    rw (e, packet_crossover)
                      (Ensures-if (length others == 0) (λ _. Ensures-pure _ refl)
                        λ full. Ensures-sub-bind _ (ground arith) (
                          Ensures-between R 0 (length others - 1) (omega arith) λ i hi.
                            let (packet, f) = get_elem?-total others i (ground arith) in
                            Ensures-lift-bind _ f (
                              Ensures-between R 0 (length packets) (omega arith) λ idx hx.
                                let s = inserted-Spliced packets idx (packet ∷ []) in
                                Ensures-lift-bind _ (insert-inserted packets idx packet hx.1) (
                                  Ensures-pure _ (record {
                                    id = id;
                                    others = others;
                                    loaded = e;
                                    not_current = other;
                                    packet = packet;
                                    present = get_elem?-Mem others i f;
                                    splice = s;
                                    bound = omega (arith, length-Spliced s);
                                  })))))
              ]
