-- ===== src/Vec/Exchange.antt =====
-- `xs.swap(i, j)`: two elements change places, and all others keep theirs.
use exim_fuzzer.Base.{
  ℕ, zero, suc, ◌<◌, ◌≡◌, ◌≢◌, refl, sym, ◌∙◌, some, List, [], ◌∷◌, arith, length, get_elem?,
  get_elem?-lt, set, length-set,
}
use exim_fuzzer.Vec.{swap}

-- The elements at the places `i` and `j` of `xs` stand in `ys` at each other's place.
pub record Exchanged {ℓ} {A : Type ℓ} (xs : List A) (i j : ℕ) (ys : List A) : Type ℓ where
  pub differ : i ≢ j
  pub inside : (i < length xs) × (j < length xs)
  pub there : get_elem? ys j ≡ get_elem? xs i
  pub back : get_elem? ys i ≡ get_elem? xs j
  pub others : (k : ℕ) → k ≢ i → k ≢ j → get_elem? ys k ≡ get_elem? xs k
  pub same_length : length ys ≡ length xs

module _ {ℓ} {A : Type ℓ} where
  pub get_elem?-set :
      (xs : List A) (i : ℕ) (v : A) → i < length xs → get_elem? (set xs i v) i ≡ some v
  get_elem?-set [] i v h = absurd (omega arith)
  get_elem?-set (x ∷ xs) zero v h = refl
  get_elem?-set (x ∷ xs) (suc i) v h = get_elem?-set xs i v (omega arith)

  pub get_elem?-set_other :
      (xs : List A) (i k : ℕ) (v : A) → k ≢ i → get_elem? (set xs i v) k ≡ get_elem? xs k
  get_elem?-set_other [] i k v d = refl
  get_elem?-set_other (x ∷ xs) zero zero v d = absurd (d refl)
  get_elem?-set_other (x ∷ xs) zero (suc k) v d = refl
  get_elem?-set_other (x ∷ xs) (suc i) zero v d = refl
  get_elem?-set_other (x ∷ xs) (suc i) (suc k) v d =
      get_elem?-set_other xs i k v (λ e. d (omega arith))

  -- What `swap` returns for two places inside.
  pub swap-set :
      (xs : List A) (i j : ℕ) {x y : A}
      → get_elem? xs i ≡ some x
      → get_elem? xs j ≡ some y
      → swap xs i j ≡ some (set (set xs i y) j x)
  unfolding swap
  swap-set xs i j e f = rw (e, swap, f)

  pub set-Exchanged :
      (xs : List A) (i j : ℕ) {x y : A}
      → i ≢ j
      → get_elem? xs i ≡ some x
      → get_elem? xs j ≡ some y
      → Exchanged xs i j (set (set xs i y) j x)
  set-Exchanged xs i j {x} {y} d e f =
      let hi : i < length xs = get_elem?-lt xs i e in
      let hj : j < length xs = get_elem?-lt xs j f in
      let len : length (set xs i y) ≡ length xs = length-set xs i y in
      record {
        differ = d;
        inside = (hi, hj);
        there = get_elem?-set (set xs i y) j x (omega arith) ∙ sym e;
        back = get_elem?-set_other (set xs i y) j i x d ∙ get_elem?-set xs i y hi ∙ sym f;
        others =
            λ k ki kj. get_elem?-set_other (set xs i y) j k x kj ∙ get_elem?-set_other xs i k y ki;
        same_length = length-set (set xs i y) j x ∙ len;
      }
