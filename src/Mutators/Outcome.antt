-- ===== src/Mutators/Outcome.antt =====
-- The results of packet mutators: `MutationResult` of the crate libafl, of which the source uses the
-- two values, and the form in which the results are stated. It is for the mutators that never
-- return an `Err`.
use exim_fuzzer.Base.{◌≡◌, List, Bool, true, false}

pub data MutationResult : Type 0 where
  mutated : MutationResult
  skipped : MutationResult

-- `skipped` with the packets as they were, or `mutated` and new packets of which `Q` holds.
abbrev pub PacketOutcome :
    {P : Type 0} → List P → (List P → Type 0) → MutationResult × List P → Type 0
PacketOutcome packets Q (skipped, packets') = packets' ≡ packets
PacketOutcome packets Q (mutated, packets') = Q packets'

abbrev pub is_mutated : MutationResult → Bool
is_mutated mutated = true
is_mutated skipped = false

-- The result of a mutator that skips exactly if not `acts`.
abbrev pub PacketDecided :
    {P : Type 0} → Bool → List P → (List P → Type 0) → MutationResult × List P → Type 0
PacketDecided acts packets Q (r, packets') =
    (is_mutated r ≡ acts) × PacketOutcome packets Q (r, packets')
