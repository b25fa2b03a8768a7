-- ===== src/Campaign/Cores.antt =====
-- The start of `fuzz` in fuzzer/src/main.rs: which binary runs on which core. The program of the command
-- is the first binary, and the others follow in turn. `none` is a panic. The ids of the cores are read
-- from the command line by the crate libafl.
use native.Mathlib.Nat.{mod-lt, zero-mod, mod-add-mod}
use exim_fuzzer.Base.{
  ℕ, zero, suc, ◌+◌, ◌%◌, ◌<◌, ◌≡◌, ◌≢◌, refl, ◌∙◌, ap, subst, true, false, Option, none, some,
  some-injective, List, [], ◌∷◌, Bytes, leb, ltb, ◌==◌, if◌then◌else◌, length, get_elem?,
  get_elem?-total, arith,
}
use exim_fuzzer.Fallible.{◌>>=◌}
use exim_fuzzer.Vec.{insert, remove}

-- `binaries` with the program of the command in front.
unfoldable pub all_binaries : List Bytes → List Bytes → Option (List Bytes)
unfolding insert remove
all_binaries binaries command = do
  default_binary ← get_elem? command 0
  _ ← remove command 0
  insert binaries 0 default_binary

-- `a % b` on `usize`.
unfoldable pub usize_rem : ℕ → ℕ → Option ℕ
usize_rem a b = if b == 0 then none else some (a % b)

-- The map from a core's id to an index; what is inserted last is found first.
abbrev pub BinaryMap : Type 0
BinaryMap = List (ℕ × ℕ)

unfoldable pub get : BinaryMap → ℕ → Option ℕ
get [] core = none
get ((c, index) ∷ map) core = if c == core then some index else get map core

-- The loop over the cores, for a number of binaries.
unfoldable pub map_cores : ℕ → List ℕ → ℕ → BinaryMap → Option BinaryMap
unfolding usize_rem
map_cores n [] cursor binary_map = some binary_map
map_cores n (core ∷ cores) cursor binary_map = do
  cursor' ← usize_rem (cursor + 1) n
  map_cores n cores cursor' ((core, cursor) ∷ binary_map)

-- `this_binary` of the client on a core.
unfoldable pub this_binary : List Bytes → List Bytes → List ℕ → ℕ → Option Bytes
this_binary binaries command cores core = do
  all ← all_binaries binaries command
  binary_map ← map_cores (length all) cores 0 []
  index ← get binary_map core
  get_elem? all index

module _ (n : ℕ) (pos : 0 < n) (core : ℕ) where
  rem : (a : ℕ) → usize_rem a n ≡ some (a % n)
  unfolding usize_rem
  rem a = let ne : (n == 0) ≡ false = ground arith in rw ne refl

  absent :
      (cores : List ℕ) (cursor : ℕ) (m : BinaryMap)
      → ((j : ℕ) → get_elem? cores j ≢ some core)
      → (m' : BinaryMap) × (map_cores n cores cursor m ≡ some m') × (get m' core ≡ get m core)
  unfolding map_cores get
  absent [] cursor m h = (m, refl, refl)
  absent (x ∷ xs) cursor m h =
      let (m', e, g) = absent xs ((cursor + 1) % n) ((x, cursor) ∷ m) (λ j. h (suc j)) in
      let ne : (x == core) ≡ false = other in (m', rw (rem (cursor + 1)) e, g ∙ rw ne refl)
    where
      other : (x == core) ≡ false
      other = let ne : x ≢ core = λ e. h 0 (ap some e) in ground arith

  last_binding :
      (cores : List ℕ) (k : ℕ) (m : BinaryMap) (i : ℕ)
      → get_elem? cores i ≡ some core
      → ((j : ℕ) → i < j → get_elem? cores j ≢ some core)
      → (m' : BinaryMap) × (map_cores n cores (k % n) m ≡ some m')
        × (get m' core ≡ some ((k + i) % n))
  unfolding map_cores get
  last_binding [] k m i e h = cc
  last_binding (x ∷ xs) k m zero e h =
      let (m', f, g) =
        absent xs ((k % n + 1) % n) ((x, k % n) ∷ m) (λ j. h (suc j) (omega arith)) in
      let same : (x == core) ≡ true = found in
      (m', rw (rem (k % n + 1)) f, g ∙ rw same (ap (λ a. some (a % n)) (omega arith)))
    where
      found : (x == core) ≡ true
      found = let e' : x ≡ core = some-injective e in ground arith
  last_binding (x ∷ xs) k m (suc i) e h =
      let (m', f, g) =
        last_binding xs (k + 1) ((x, k % n) ∷ m) i e (λ j lt. h (suc j) (omega arith)) in
      let next : (k % n + 1) % n ≡ (k + 1) % n = mod-add-mod k n 1 in
      (m', rw (rem (k % n + 1), next) f, g ∙ ap (λ a. some (a % n)) (omega arith))

-- Without a command the fuzzer panics at once.
this_binary-no_command :
    (binaries : List Bytes) (cores : List ℕ) (core : ℕ) → this_binary binaries [] cores core ≡ none
unfolding this_binary all_binaries
this_binary-no_command binaries cores core = refl

all_binaries-some :
    (binaries : List Bytes) (program : Bytes) (args : List Bytes)
    → all_binaries binaries (program ∷ args) ≡ some (program ∷ binaries)
unfolding all_binaries
all_binaries-some binaries program args =
    let start : leb 0 (length binaries) ≡ true = ground arith in
    let some_item : ltb 0 (length (program ∷ args)) ≡ true = ground arith in
    rw (some_item, start) refl

-- With a command, the client on a core of the list finds its binary without a panic. It is the one that
-- stands, among the command's program and the other binaries in this order, at the core's place in the
-- list of cores modulo their number. If the list names a core more than once, the last place counts.
pub this_binary_lem :
    (binaries : List Bytes) (program : Bytes) (args : List Bytes) (cores : List ℕ) (core i : ℕ)
    → get_elem? cores i ≡ some core
    → ((j : ℕ) → i < j → get_elem? cores j ≢ some core)
    → (binary : Bytes) × (this_binary binaries (program ∷ args) cores core ≡ some binary)
      × (get_elem? (program ∷ binaries) (i % length (program ∷ binaries)) ≡ some binary)
unfolding this_binary
this_binary_lem binaries program args cores core i e h =
    let n = length (program ∷ binaries) in
    let (m, f, g) = last_binding n (omega arith) core cores 0 [] i e h in
    let (binary, b) = get_elem?-total (program ∷ binaries) (i % n) (mod-lt i (omega arith)) in
    let start : map_cores n cores 0 [] ≡ some m =
      subst (λ c. map_cores n cores c [] ≡ some m) (zero-mod n) f in
    let here : get m core ≡ some (i % n) = g ∙ ap (λ a. some (a % n)) (omega arith) in
    (binary, rw (all_binaries-some binaries program args, start, here) b, b)
