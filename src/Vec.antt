-- ===== src/Vec.antt =====
-- The operations of `Vec<T>` and of slices that the mutators use; `none` is the panic that Rust
-- raises for an index out of range or a range whose ends are not in order.
pub mod Laws
pub mod Exchange
use exim_fuzzer.Base.{
  ℕ, ◌+◌, ◌-◌, Bool, ◌&&◌, Option, none, some, List, [], ◌∷◌, ◌++◌, leb, ltb, if◌then◌else◌, length,
  get_elem?, set, take, drop,
}

-- `std::ops::Range<usize>`
pub record Range : Type 0 where
  pub start : ℕ
  pub end : ℕ

abbrev pub range : ℕ → ℕ → Range
range a b = record { start = a; end = b }

-- A range that can index a sequence of `n` elements.
abbrev pub in_range : Range → ℕ → Bool
in_range r n = leb r.start r.end && leb r.end n

module _ {ℓ} {A : Type ℓ} where
  -- `xs[r]`
  unfoldable pub slice : List A → Range → Option (List A)
  slice xs r =
      if in_range r (length xs) then some (take (r.end - r.start) (drop r.start xs)) else none

  -- `xs.splice(r, ys)`, with the removed elements
  unfoldable pub splice : List A → Range → List A → Option (List A × List A)
  splice xs r ys =
      if in_range r (length xs)
      then some (take r.start xs ++ (ys ++ drop r.end xs), take (r.end - r.start) (drop r.start xs))
      else none

  -- `xs.insert(i, x)`
  unfoldable pub insert : List A → ℕ → A → Option (List A)
  insert xs i x = if leb i (length xs) then some (take i xs ++ (x ∷ drop i xs)) else none

  -- `xs.remove(i)`
  unfoldable pub remove : List A → ℕ → Option (List A)
  remove xs i = if ltb i (length xs) then some (take i xs ++ drop (i + 1) xs) else none

  -- `xs[i] = x`
  unfoldable pub assign : List A → ℕ → A → Option (List A)
  assign xs i x = if ltb i (length xs) then some (set xs i x) else none

  -- `xs.swap(i, j)`
  unfoldable pub swap : List A → ℕ → ℕ → Option (List A)
  swap xs i j = elim (get_elem? xs i) [
    | none ↦ none
    | some x ↦ elim (get_elem? xs j) [ none ↦ none | some y ↦ some (set (set xs i y) j x) ]
  ]
