-- ===== src/Mutate/Dict.antt =====
-- fuzzer/src/tokens/mutators/dict.rs. The dictionary, `Tokens` of the crate libafl, stands for the
-- byte strings that its method `tokens()` returns.
use mathlib.Core.List.{Memᴰ}
use exim_fuzzer.Base.{
  ℕ, ◌-◌, ◌≤◌, ◌<◌, ◌≡◌, refl, sym, ap, ◌⊎◌, inl, inr, Bool, true, false, not, ◌||◌, Option, none,
  some, List, [], ◌∷◌, ◌++◌, leb, ◌==◌, if◌then◌else◌, Bytes, length, take, drop, get_elem?,
  get_elem?-total, arith, le→leb, subst, some-injective, get_elem?-Mem,
}
use exim_fuzzer.Mutate.Common.{Outcome, Decided}
use exim_fuzzer.Mutate.Rewrite.{Rewritten, first_match_from, first_match_from_lem}
use exim_fuzzer.Rand.{Rand}
use exim_fuzzer.Rand.Rules.{Ensures-between}
use exim_fuzzer.Run.{Run, pure, lift, ◌>>=◌, ◌>>◌, usize_sub, debug_assert}
use exim_fuzzer.Run.Ensures.{
  Ensures, Ensures-pure, Ensures-if, Ensures-bind, Ensures-lift-bind, Ensures-sub-bind,
  Ensures-assert-then, Ensures-weaken,
}
use exim_fuzzer.Token.{TextToken, constant, number, whitespace, text, TokenStream, is_whitespace}
use exim_fuzzer.Token.Random.{random_whitespace}
use exim_fuzzer.Token.Random.Laws.{IsRandomToken, random_whitespace_lem}
use exim_fuzzer.Vec.{range, splice, insert}
use exim_fuzzer.Vec.Laws.{Spliced, splice-empty, inserted-Spliced, insert-inserted, length-Spliced}

-- A constant from the dictionary stands at some place of the stream, alone or between two tokens of
-- one whitespace byte each.
pub record DictInserted (dict : List Bytes) (stream : TokenStream) (max_len : ℕ)
    (stream' : TokenStream) : Type 0 where
  pub item : Bytes
  pub listed : Memᴰ item dict
  pub new : TokenStream
  pub shape :
      (new ≡ constant item ∷ [])
      ⊎ ((l : TextToken) × (r : TextToken) × (new ≡ l ∷ constant item ∷ r ∷ [])
          × IsRandomToken 1 1 l
          × IsRandomToken 1 1 r)
  pub splice : Spliced stream [] new stream'
  pub bound : length stream' ≤ max_len

-- A token that is no whitespace becomes a constant from the dictionary.
pub record DictReplaced (dict : List Bytes) (old new : TextToken) : Type 0 where
  pub item : Bytes
  pub listed : Memᴰ item dict
  pub visible : is_whitespace old ≡ false
  pub now : new ≡ constant item

module _ (R : Rand) where
  open R use {State, between, coinflip}

  -- `cap >= 3 && rand.coinflip(0.5)`: the coin is flipped only if there is room.
  unfoldable pub with_spaces : ℕ → Run State Bool
  with_spaces cap = if leb 3 cap then coinflip else pure false

  unfoldable pub mutate_dict_insert : TokenStream → List Bytes → ℕ → Run State (Bool × TokenStream)
  unfolding with_spaces
  mutate_dict_insert stream dict max_len =
      if length dict == 0 || leb max_len (length stream) then pure (false, stream) else do
        cap ← usize_sub max_len (length stream)
        idx ← between 0 (length stream)
        last ← usize_sub (length dict) 1
        item ← between 0 last
        new_elem ← lift (get_elem? dict item)
        spaces ← with_spaces cap
        if spaces
            then (do
              l ← random_whitespace R 1 1
              r ← random_whitespace R 1 1
              (stream', _) ← lift (splice stream (range idx idx) (l ∷ constant new_elem ∷ r ∷ []))
              debug_assert (leb (length stream') max_len)
              pure (true, stream'))
            else (do
              stream' ← lift (insert stream idx (constant new_elem))
              debug_assert (leb (length stream') max_len)
              pure (true, stream'))

  -- What the loop of `mutate_dict_replace` does to a token that is no whitespace.
  unfoldable pub replace_visible : Bytes → TextToken → Option (Run State TextToken)
  replace_visible new_elem token =
      if is_whitespace token then none else some (pure (constant new_elem))

  unfoldable pub mutate_dict_replace : TokenStream → List Bytes → Run State (Bool × TokenStream)
  unfolding replace_visible
  mutate_dict_replace stream dict =
      if length dict == 0 || length stream == 0 then pure (false, stream) else do
        last ← usize_sub (length stream) 1
        start ← between 0 last
        last_item ← usize_sub (length dict) 1
        item ← between 0 last_item
        new_elem ← lift (get_elem? dict item)
        first_match_from (replace_visible new_elem) stream start

  with_spaces_lem : (cap : ℕ) → Ensures (λ b. b ≡ true → 3 ≤ cap) (with_spaces cap)
  unfolding with_spaces
  with_spaces_lem cap =
      Ensures-if (leb 3 cap) (λ room. Ensures-weaken R.coinflip_lem (λ b _ _. ground arith))
        λ _. Ensures-pure _ (λ e. cc)

  module _ (stream : TokenStream) (dict : List Bytes) (max_len : ℕ) where
    -- `mutate_dict_insert` never panics. Where the dictionary is not empty and the stream is
    -- shorter than the bound, it returns true and inserts a constant from the dictionary, alone or
    -- with a whitespace token of one byte on each side, within the bound; else it returns false
    -- and leaves the stream alone.
    pub mutate_dict_insert_lem :
        Ensures
          (Decided
            (not (length dict == 0 || leb max_len (length stream)))
            stream
            (DictInserted dict stream max_len))
          (mutate_dict_insert stream dict max_len)
    unfolding mutate_dict_insert
    mutate_dict_insert_lem =
        Ensures-if (length dict == 0 || leb max_len (length stream))
          (λ no. Ensures-pure _ (ap not (sym no), refl))
          λ go.
            let some_item : 0 < length dict = ground arith in
            let room : length stream < max_len = ground arith in
            Ensures-sub-bind _ (omega arith) (
              Ensures-between R 0 (length stream) (omega arith) λ idx hi.
                Ensures-sub-bind _ some_item (
                  Ensures-between R 0 (length dict - 1) (omega arith) λ item hit.
                    let (new_elem, e) = get_elem?-total dict item (omega arith) in
                    let m = get_elem?-Mem dict item e in
                    Ensures-lift-bind _ e (
                      Ensures-bind (with_spaces_lem (max_len - length stream)) λ spaces hsp.
                        Ensures-if spaces
                          (λ on.
                            let three : 3 ≤ max_len - length stream = hsp on in
                            Ensures-bind (random_whitespace_lem R 1 1 (omega arith) (omega arith))
                              λ l hl.
                                Ensures-bind
                                  (random_whitespace_lem R 1 1 (omega arith) (omega arith))
                                  λ r hr.
                                    let new = l ∷ constant new_elem ∷ r ∷ [] in
                                    let to = inserted-Spliced stream idx new in
                                    let bound : length (take idx stream ++ (new ++ drop idx stream))
                                        ≤ max_len =
                                      omega (arith, length-Spliced to) in
                                    Ensures-lift-bind _ (splice-empty stream idx new hi.1) (
                                      Ensures-assert-then (le→leb _ _ bound) (
                                        Ensures-pure _ (
                                          ap not (sym go),
                                          record {
                                            item = new_elem;
                                            listed = m;
                                            new = new;
                                            shape = inr (l, r, refl, hl, hr);
                                            splice = to;
                                            bound = bound;
                                          },
                                        ))))
                          λ _.
                            let new = constant new_elem ∷ [] in
                            let to = inserted-Spliced stream idx new in
                            let bound : length (take idx stream ++ (new ++ drop idx stream))
                                ≤ max_len =
                              omega (arith, length-Spliced to) in
                            Ensures-lift-bind _
                              (insert-inserted stream idx (constant new_elem) hi.1)
                              (Ensures-assert-then (le→leb _ _ bound) (
                                Ensures-pure _ (
                                  ap not (sym go),
                                  record {
                                    item = new_elem;
                                    listed = m;
                                    new = new;
                                    shape = inl refl;
                                    splice = to;
                                    bound = bound;
                                  },
                                ))))))

  replace_visible_lem :
      (dict : List Bytes) (item : Bytes) (m : Memᴰ item dict) (t : TextToken)
      (act : Run State TextToken)
      → replace_visible item t ≡ some act
      → Ensures (DictReplaced dict t) act
  unfolding replace_visible
  replace_visible_lem dict item m (whitespace b) act e = cc
  replace_visible_lem dict item m (constant b) act e =
      subst (Ensures (DictReplaced dict (constant b))) (some-injective e)
        (Ensures-pure _ (record { item = item; listed = m; visible = refl; now = refl }))
  replace_visible_lem dict item m (number b) act e =
      subst (Ensures (DictReplaced dict (number b))) (some-injective e)
        (Ensures-pure _ (record { item = item; listed = m; visible = refl; now = refl }))
  replace_visible_lem dict item m (text b) act e =
      subst (Ensures (DictReplaced dict (text b))) (some-injective e)
        (Ensures-pure _ (record { item = item; listed = m; visible = refl; now = refl }))

  -- `mutate_dict_replace` never panics, and makes one token that is no whitespace a constant from the
  -- dictionary, or returns false and leaves the stream alone.
  pub mutate_dict_replace_lem :
      (stream : TokenStream) (dict : List Bytes)
      → Ensures
          (Outcome stream (Rewritten (DictReplaced dict) stream))
          (mutate_dict_replace stream dict)
  unfolding mutate_dict_replace
  mutate_dict_replace_lem stream dict =
      Ensures-if (length dict == 0 || length stream == 0) (λ _. Ensures-pure _ refl)
        λ go.
          let some_item : 0 < length dict = ground arith in
          let some_token : 0 < length stream = ground arith in
          Ensures-sub-bind _ some_token (
            Ensures-between R 0 (length stream - 1) (omega arith) λ start hs.
              Ensures-sub-bind _ some_item (
                Ensures-between R 0 (length dict - 1) (omega arith) λ item hit.
                  let (new_elem, e) = get_elem?-total dict item (omega arith) in
                  Ensures-lift-bind _ e (
                    first_match_from_lem (replace_visible new_elem)
                      (replace_visible_lem dict new_elem (get_elem?-Mem dict item e)) stream start
                      (omega arith))))
