-- ===== src/Vec/Laws.antt =====
-- When the operations on vectors succeed, and what they do: each is the replacement of one
-- contiguous part of the vector by another.
use exim_fuzzer.Base.{
  ℕ, zero, suc, ◌+◌, ◌-◌, ◌≤◌, ◌<◌, ◌≡◌, refl, sym, ap, ◌∙◌, some, List, [], ◌∷◌, ◌++◌, arith,
  le→leb, lt→ltb, length, get_elem?, get_elem?-lt, set, take, drop, take-append-drop, drop-nil,
  length-append, length-take, length-drop, drop-length-append, take-length-append, ap₂,
}
use exim_fuzzer.Vec.{Range, range, slice, splice, insert, remove, assign}

-- `ys` is `xs` with the part `old` replaced by `new`, and nothing else changed.
pub record Spliced {ℓ} {A : Type ℓ} (xs old new ys : List A) : Type ℓ where
  pub before : List A
  pub after : List A
  pub from : xs ≡ before ++ (old ++ after)
  pub to : ys ≡ before ++ (new ++ after)

-- `part` is a contiguous, non-empty part of `xs`.
pub record Segment {ℓ} {A : Type ℓ} (xs part : List A) : Type ℓ where
  pub before : List A
  pub after : List A
  pub splits : xs ≡ before ++ (part ++ after)
  pub not_empty : 0 < length part

module _ {ℓ} {A : Type ℓ} where
  pub length-Spliced :
      {xs old new ys : List A}
      → Spliced xs old new ys
      → length ys + length old ≡ length xs + length new
  length-Spliced {old} {new} s = omega (
    arith,
    ap length s.from,
    ap length s.to,
    length-append s.before (old ++ s.after),
    length-append s.before (new ++ s.after),
    length-append old s.after,
    length-append new s.after,
  )

  pub drop-drop : (a b : ℕ) (xs : List A) → a ≤ b → drop (b - a) (drop a xs) ≡ drop b xs
  drop-drop zero b xs h = let e : b - 0 ≡ b = omega arith in rw e
  drop-drop (suc a) zero xs h = absurd (omega arith)
  drop-drop (suc a) (suc b) [] h = drop-nil (suc b - suc a)
  drop-drop (suc a) (suc b) (x ∷ xs) h =
      let e : suc b - suc a ≡ b - a = omega arith in rw e (drop-drop a b xs (omega arith))

  pub drop-add : (a b : ℕ) (xs : List A) → drop b (drop a xs) ≡ drop (a + b) xs
  drop-add a b xs =
      let e : a + b - a ≡ b = omega arith in rw e at (drop-drop a (a + b) xs (omega arith))

  -- The three parts that a range cuts a vector into.
  pub take-drop-drop :
      (a b : ℕ) (xs : List A) → a ≤ b → xs ≡ take a xs ++ (take (b - a) (drop a xs) ++ drop b xs)
  take-drop-drop a b xs h =
      sym (take-append-drop a xs)
      ∙ ap (λ r. take a xs ++ r)
          (sym (take-append-drop (b - a) (drop a xs))
            ∙ ap (λ r. take (b - a) (drop a xs) ++ r) (drop-drop a b xs h))

  abbrev pub part : List A → Range → List A
  part xs r = take (r.end - r.start) (drop r.start xs)

  pub length-part :
      (xs : List A) (r : Range) → r.end ≤ length xs → length (part xs r) ≡ r.end - r.start
  length-part xs r h =
      omega (arith, length-take (r.end - r.start) (drop r.start xs), length-drop r.start xs)

module _ {ℓ} {A : Type ℓ} (xs : List A) (r : Range) (ordered : r.start ≤ r.end)
    (fits : r.end ≤ length xs) where
  pub slice-part : slice xs r ≡ some (part xs r)
  unfolding slice
  slice-part = rw (le→leb r.start r.end ordered, le→leb r.end (length xs) fits)

  pub part-Segment : r.start < r.end → Segment xs (part xs r)
  part-Segment h = record {
    before = take r.start xs;
    after = drop r.end xs;
    splits = take-drop-drop r.start r.end xs ordered;
    not_empty = omega (arith, length-part xs r fits);
  }

  abbrev pub spliced : List A → List A
  spliced ys = take r.start xs ++ (ys ++ drop r.end xs)

  pub splice-spliced : (ys : List A) → splice xs r ys ≡ some (spliced ys, part xs r)
  unfolding splice
  splice-spliced ys = rw (le→leb r.start r.end ordered, le→leb r.end (length xs) fits)

  pub spliced-Spliced : (ys : List A) → Spliced xs (part xs r) ys (spliced ys)
  spliced-Spliced ys = record {
    before = take r.start xs;
    after = drop r.end xs;
    from = take-drop-drop r.start r.end xs ordered;
    to = refl;
  }

module _ {ℓ} {A : Type ℓ} where
  -- A splice at an empty range removes nothing.
  pub splice-empty :
      (xs : List A) (i : ℕ) (ys : List A)
      → i ≤ length xs
      → splice xs (range i i) ys ≡ some (take i xs ++ (ys ++ drop i xs), [])
  splice-empty xs i ys h =
      let e : i - i ≡ 0 = omega arith in rw (splice-spliced xs (range i i) (omega arith) h ys, e)

  pub inserted-Spliced :
      (xs : List A) (i : ℕ) (ys : List A) → Spliced xs [] ys (take i xs ++ (ys ++ drop i xs))
  inserted-Spliced xs i ys = record {
    before = take i xs;
    after = drop i xs;
    from = sym (take-append-drop i xs);
    to = refl;
  }

  pub insert-inserted :
      (xs : List A) (i : ℕ) (x : A)
      → i ≤ length xs
      → insert xs i x ≡ some (take i xs ++ (x ∷ drop i xs))
  unfolding insert
  insert-inserted xs i x h = rw (le→leb i (length xs) h)

  pub assign-set : (xs : List A) (i : ℕ) (x : A) → i < length xs → assign xs i x ≡ some (set xs i x)
  unfolding assign
  assign-set xs i x h = rw (lt→ltb i (length xs) h)

  pub set-Spliced :
      (xs : List A) (i : ℕ) {old : A} (new : A)
      → get_elem? xs i ≡ some old
      → Spliced xs (old ∷ []) (new ∷ []) (set xs i new)
  set-Spliced [] i new h = cc
  set-Spliced (x ∷ xs) zero new h = record {
    before = [];
    after = xs;
    from = ground (arith, h);
    to = refl;
  }
  set-Spliced (x ∷ xs) (suc i) new h =
      let s = set-Spliced xs i new h in
      record {
        before = x ∷ s.before;
        after = s.after;
        from = ap (◌∷◌ x) s.from;
        to = ap (◌∷◌ x) s.to;
      }

  -- A splice that replaces a part of which the ends are known as lengths.
  pub splice-append :
      (a p z q : List A) (lo hi : ℕ)
      → lo ≡ length a
      → hi ≡ length a + length p
      → splice (a ++ (p ++ z)) (range lo hi) q ≡ some (a ++ (q ++ z), p)
  splice-append a p z q lo hi l h =
      let xs = a ++ (p ++ z) in
      let fits : length xs ≡ length a + (length p + length z) =
        omega (arith, length-append a (p ++ z), length-append p z) in
      let front : take lo xs ≡ a = rw l (take-length-append a (p ++ z)) in
      let mid : drop lo xs ≡ p ++ z = rw l (drop-length-append a (p ++ z)) in
      let last : drop hi xs ≡ z =
        rw h (sym (drop-add (length a) (length p) xs))
        ∙ ap (drop (length p)) (drop-length-append a (p ++ z))
        ∙ drop-length-append p z in
      let size : hi - lo ≡ length p = omega arith in
      splice-spliced xs (range lo hi) (omega arith) (omega arith) q
      ∙ ap some (
          ap₂ (λ x y. (x, y)) (ap₂ (λ x y. x ++ (q ++ y)) front last)
            (ap₂ take size mid ∙ take-length-append p z))

  -- The five parts that two ranges, one behind the other, cut a vector into.
  pub cut_two :
      (xs : List A) (r s : Range)
      → r.start ≤ r.end
      → r.end ≤ s.start
      → s.start ≤ s.end
      → xs
        ≡ take r.start xs
          ++ (part xs r ++ (take (s.start - r.end) (drop r.end xs) ++ (part xs s ++ drop s.end xs)))
  cut_two xs r s a b c =
      take-drop-drop r.start r.end xs a
      ∙ ap (λ t. take r.start xs ++ (part xs r ++ t))
          (sym (take-append-drop (s.start - r.end) (drop r.end xs))
            ∙ ap (λ t. take (s.start - r.end) (drop r.end xs) ++ t)
                (drop-drop r.end s.start xs b
                  ∙ sym (take-append-drop (s.end - s.start) (drop s.start xs))
                  ∙ ap (λ t. part xs s ++ t) (drop-drop s.start s.end xs c)))

  take-get-drop :
      (xs : List A) (i : ℕ) {x : A}
      → get_elem? xs i ≡ some x
      → xs ≡ take i xs ++ (x ∷ drop (i + 1) xs)
  take-get-drop [] i e = cc
  take-get-drop (y ∷ ys) zero e = ground (arith, e)
  take-get-drop (y ∷ ys) (suc i) e =
      let next : suc i + 1 ≡ suc (i + 1) = omega arith in
      rw next (ap (◌∷◌ y) (take-get-drop ys i e))

  pub remove-Spliced :
      (xs : List A) (i : ℕ) {x : A}
      → get_elem? xs i ≡ some x
      → (remove xs i ≡ some (take i xs ++ drop (i + 1) xs))
        × Spliced xs (x ∷ []) [] (take i xs ++ drop (i + 1) xs)
  unfolding remove
  remove-Spliced xs i e = (
    rw (lt→ltb i (length xs) (get_elem?-lt xs i e)),
    record { before = take i xs; after = drop (i + 1) xs; from = take-get-drop xs i e; to = refl },
  )
