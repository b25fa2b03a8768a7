-- ===== src/Campaign/Seeds.antt =====
-- fuzzer/src/main.rs: the seeds of the random sources of a client, from the clock and the number of its
-- core. An outer `none` is the overflow of a debug build.
use native.Mathlib.Nat.{
  one-le-pow, two-pow-succ, mod-lt, div-lt_iff_lt-mul, mul_comm, mul-le-mul_right, add-mul,
  mul_left_comm,
}
use exim_fuzzer.Base.{
  ℕ, zero, suc, refl, ap, sym, ◌∙◌, dec_le, lt→ltb, ◌+◌, ◌-◌, ◌*◌, ◌/◌, ◌%◌, ◌^◌, ◌≤◌, ◌<◌, ◌≡◌,
  Option, none, some, ltb, if◌then◌else◌, arith,
}
use exim_fuzzer.Fallible.{◌>>=◌}

-- `x.rotate_right(n)`, on a `u64` and a `u32`
unfoldable pub rotate_right : ℕ → ℕ → ℕ
rotate_right x n = x / 2 ^ (n % 64) + x % 2 ^ (n % 64) * 2 ^ (64 - n % 64)

-- `core as u32`
unfoldable pub seed : ℕ → ℕ → ℕ
unfolding rotate_right
seed nanos core = rotate_right nanos (core % 2 ^ 32)

-- `a + b`, on `u64`
unfoldable pub u64_add : ℕ → ℕ → Option ℕ
u64_add a b = if ltb (a + b) (2 ^ 64) then some (a + b) else none

pub record Seeds : Type 0 where
  pub state : ℕ
  pub first_content : ℕ
  pub second_content : ℕ
  pub third_content : ℕ
  pub crossover : ℕ

-- The seeds of the state, of the three `TokenStreamMutator`s and of the `PacketCrossoverMutator`.
unfoldable pub seeds : ℕ → ℕ → Option Seeds
unfolding seed u64_add
seeds nanos core = do
  let s = seed nanos core
  second ← u64_add s 1
  third ← u64_add s 2
  some (record {
    state = s;
    first_content = s;
    second_content = second;
    third_content = third;
    crossover = s;
  })

-- The two parts change places: the quotient is below `c`, and the remainder below `a`.
rotated_bound :
    (x a c : ℕ) → 0 < a → 0 < c → a * c ≡ 2 ^ 62 → x < 2 ^ 62 → x / a + x % a * (4 * c) + 2 < 2 ^ 64
rotated_bound x a c pos pos_c e small =
    let q : x / a < c = (div-lt_iff_lt-mul pos).1 (omega (arith, e, mul_comm a c)) in
    let r : (x % a + 1) * c ≤ a * c = mul-le-mul_right c (omega (arith, mod-lt x pos)) in
    let spread : (x % a + 1) * c ≡ x % a * c + c = omega (arith, add-mul (x % a) 1 c) in
    let four : x % a * (4 * c) ≡ 4 * (x % a * c) = omega (arith, mul_left_comm (x % a) 4 c) in
    omega (arith, q, r, spread, four, e)

pow-split : (k j : ℕ) → 2 ^ (k + j) ≡ 2 ^ k * 2 ^ j
pow-split zero j =
    let e : 2 ^ (0 + j) ≡ 2 ^ j = ap (λ (k : ℕ). 2 ^ k) (omega arith) in omega (arith, e)
pow-split (suc k) j =
    let e : 2 ^ (suc k + j) ≡ 2 ^ suc (k + j) = ap (λ (k : ℕ). 2 ^ k) (omega arith) in
    let twice : 2 ^ suc k * 2 ^ j ≡ 2 ^ k * 2 ^ j + 2 ^ k * 2 ^ j =
      ap (λ (x : ℕ). x * 2 ^ j) (two-pow-succ k) ∙ add-mul (2 ^ k) (2 ^ k) (2 ^ j) in
    omega (arith, e, twice, two-pow-succ (k + j), pow-split k j)

-- A rotation of a word whose two highest bits are 0.
rotate_right_bound : (x n : ℕ) → x < 2 ^ 62 → rotate_right x n + 2 < 2 ^ 64
unfolding rotate_right
rotate_right_bound x n small =
    let k = n % 64 in
    let near : k < 64 = mod-lt n (omega arith) in
    elim (dec_le k 62) [
      | yes le ↦
          let j = 62 - k in
          let sum : k + j ≡ 62 = omega arith in
          let whole : 2 ^ k * 2 ^ j ≡ 2 ^ 62 = sym (pow-split k j) ∙ ap (λ (i : ℕ). 2 ^ i) sum in
          let four_more : 64 - k ≡ 2 + j = omega arith in
          let four : 2 ^ (64 - k) ≡ 4 * 2 ^ j = ap (λ (i : ℕ). 2 ^ i) four_more ∙ pow-split 2 j in
          rw four (
            rotated_bound x (2 ^ k) (2 ^ j) (one-le-pow k 2 (omega arith))
              (one-le-pow j 2 (omega arith)) whole small)
      | no far ↦ let last : k ≡ 63 = omega arith in rw last (omega arith)
    ]

-- From any clock before the year 2116, which is 2 ^ 62 nanoseconds, and for any core, no seed overflows.
-- The state, the first `TokenStreamMutator` and the crossover have the same seed; those of the other two
-- are the next numbers.
pub seeds_lem :
    (nanos core : ℕ)
    → nanos < 2 ^ 62
    → seeds nanos core
      ≡ some (record {
        state = seed nanos core;
        first_content = seed nanos core;
        second_content = seed nanos core + 1;
        third_content = seed nanos core + 2;
        crossover = seed nanos core;
      })
unfolding seeds seed u64_add
seeds_lem nanos core small =
    let fits : seed nanos core + 2 < 2 ^ 64 = rotate_right_bound nanos (core % 2 ^ 32) small in
    let second = lt→ltb (seed nanos core + 1) (2 ^ 64) (omega arith) in
    let third = lt→ltb (seed nanos core + 2) (2 ^ 64) fits in rw (second, third) refl
