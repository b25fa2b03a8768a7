-- ===== src/Tests/Counter.antt =====
-- A source of random numbers that counts its calls, and has every property that is asked of one.
use native.Mathlib.Nat.{mod-lt}
use exim_fuzzer.Base.{
  ℕ, suc, ◌+◌, ◌-◌, ◌%◌, ◌^◌, ◌≢◌, refl, Option, some, List, [], ◌∷◌, ◌==◌, arith, length,
  get_elem?, get_elem?-total, get_elem?-Mem, subst, sym,
}
use exim_fuzzer.Rand.{Rand, Chosen}
use exim_fuzzer.Run.{Run}
use exim_fuzzer.Run.Ensures.{Ensures}

abbrev pub pick : {A : Type 0} → List A → Run ℕ (Option A)
pick xs s = some (get_elem? xs (s % length xs), s + 1)

pub pick_lem : {A : Type 0} (xs : List A) → xs ≢ [] → Ensures (Chosen xs) (pick xs)
pick_lem [] ne = absurd (ne refl)
pick_lem (x ∷ xs) ne = record {
  at = λ s.
      let (y, e) = get_elem?-total (x ∷ xs) (s % length (x ∷ xs)) (mod-lt s (omega arith)) in
      subst (Chosen (x ∷ xs)) (sym e) (get_elem?-Mem (x ∷ xs) (s % length (x ∷ xs)) e);
}

abbrev pub counter : Rand
counter = record {
  State = ℕ;
  next = λ s. some (s % 2 ^ 64, s + 1);
  between = λ lo hi s. some (lo + s % suc (hi - lo), s + 1);
  zero_upto = λ hi s. some (s % suc hi, s + 1);
  below = λ n s. some (s % n, s + 1);
  choose = pick;
  coinflip = λ s. some (s % 2 == 0, s + 1);
  next_lem = record { at = λ s. omega arith };
  between_lem =
      λ lo hi h. record { at = λ s. omega (arith, mod-lt s {m = suc (hi - lo)} (omega arith)) };
  zero_upto_lem = λ hi. record { at = λ s. omega (arith, mod-lt s {m = suc hi} (omega arith)) };
  below_lem = λ n h. record { at = λ s. mod-lt s h };
  choose_lem = pick_lem;
  coinflip_lem = record { at = λ s. tt };
}
