-- ===== src/Mutate/Flip/Byte.antt =====
-- fuzzer/src/tokens/mutators/flip.rs: the search for a byte that a text may hold. The table there is
-- the one of `random_text`.
use exim_fuzzer.Base.{
  ℕ, zero, suc, ◌+◌, ◌≤◌, ◌<◌, ◌≡◌, ◌≢◌, refl, Bool, true, false, not, ◌&&◌, Option, none, some,
  leb→le, ◌%◌, leb, ltb, get_elem?, arith, le→leb, lt→ltb,
}
use exim_fuzzer.Token.Random.{allow_map}
use exim_fuzzer.Token.Random.Laws.{table_holds, table_holds_at}

-- The loop of `find_valid_byte`, with fuel for its rounds; the index is a `u8`, so it is in range.
unfoldable pub find_from : ℕ → ℕ → Option ℕ
find_from zero c = none
find_from (suc fuel) c = elim (get_elem? allow_map c) [
  | none ↦ none
  | some true ↦ some c
  | some false ↦ find_from fuel ((c + 1) % 256)
]

unfoldable pub find_valid_byte : ℕ → Option ℕ
unfolding find_from allow_map
find_valid_byte = find_from 256

-- The test of one result: the byte is allowed, at least `c`, and the first such byte.
abbrev allowed : ℕ → Bool
allowed b = elim (get_elem? allow_map b) [ none ↦ false | some a ↦ a ]

abbrev is_first : ℕ → ℕ → Bool
is_first c d = allowed d && leb c d && table_holds (λ e. not (leb c e && ltb e d && allowed e)) 128

abbrev first_found : ℕ → Bool
first_found c = elim (find_valid_byte c) [ none ↦ false | some d ↦ is_first c d ]

first_found-table : table_holds first_found 128 ≡ true
unfolding table_holds find_valid_byte
first_found-table = refl

-- `d` is the first byte from `c` on that the table allows.
pub record IsNextAllowed (c d : ℕ) : Type 0 where
  pub above : c ≤ d
  pub is_allowed : get_elem? allow_map d ≡ some true
  pub first : (e : ℕ) → e < 128 → c ≤ e → e < d → get_elem? allow_map e ≢ some true

is_first-IsNextAllowed : (c d : ℕ) → is_first c d ≡ true → IsNextAllowed c d
is_first-IsNextAllowed c d h = record {
  above = leb→le c d (ground arith);
  is_allowed = ground arith;
  first = λ e lt le le' same.
      let row = table_holds_at (λ e. not (leb c e && ltb e d && allowed e)) e lt (ground arith) in
      ground (arith, row, same, le→leb c e le, lt→ltb e d le');
}

-- For every byte below 128 the loop ends, within 256 rounds, at the first byte from there on that
-- the table allows.
pub find_valid_byte_lem :
    (c : ℕ) → c < 128 → (d : ℕ) × (find_valid_byte c ≡ some d) × IsNextAllowed c d
find_valid_byte_lem c h = go (find_valid_byte c) refl
  where
    go :
        (o : Option ℕ)
        → find_valid_byte c ≡ o
        → (d : ℕ) × (find_valid_byte c ≡ some d) × IsNextAllowed c d
    go none e = cc (table_holds_at first_found c h first_found-table, e)
    go (some d) e = (
      d,
      e,
      is_first-IsNextAllowed c d
          (ground (arith, table_holds_at first_found c h first_found-table, e)),
    )
