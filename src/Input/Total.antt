-- ===== src/Input/Total.antt =====
-- `parse_txt` of fuzzer/src/input.rs on any bytes: its end, and where its packets come from.
use exim_fuzzer.Base.{
  ℕ, zero, suc, ◌+◌, ◌≤◌, ◌<◌, ◌≡◌, refl, Bool, true, false, Option, none, some, List, [], ◌∷◌,
  ◌++◌, Bytes, ltb, length, length-append, arith, if◌then◌else◌,
}
use exim_fuzzer.Fallible.{◌>>=◌}
use exim_fuzzer.Input.{
  PacketBasedInput, separator, bytes_eq, pushed, parse_rest, parse_loop, parse_txt,
}
use exim_fuzzer.Packet.{Packet}
use exim_fuzzer.Token.WellFormed.{All, All-append}
use exim_fuzzer.Vec.{Range, range}
use exim_fuzzer.Vec.Laws.{slice-part, part}

-- There is a result, and it satisfies the postcondition.
record Returns {A : Type 0} (Q : A → Type 0) (o : Option A) : Type 0 where
  result : A
  at : o ≡ some result
  good : Q result

module _ {B : Type 0} {Q : B → Type 0} where
  Returns-if :
      (b : Bool) {x y : Option B}
      → (b ≡ true → Returns Q x)
      → (b ≡ false → Returns Q y)
      → Returns Q (if b then x else y)
  Returns-if true f g = f refl
  Returns-if false f g = g refl

  Returns-bind :
      {A : Type 0} {o : Option A} {a : A} (f : A → Option B)
      → o ≡ some a
      → Returns Q (f a)
      → Returns Q (o >>= f)
  Returns-bind f e h = rw e h

  Returns-elim :
      {A : Type 0} {d : Option B} (f : A → Option B) (o : Option A)
      → Returns Q d
      → ((a : A) → o ≡ some a → Returns Q (f a))
      → Returns Q (elim o as (λ _. Option B) [ none ↦ d | some a ↦ f a ])
  Returns-elim f none d g = d
  Returns-elim f (some a) d g = g a refl

-- The packet is what a part of the buffer is read as.
pub record IsRead {P : Type 0} (I : Packet P) (buf : Bytes) (packet : P) : Type 0 where
  pub at : Range
  pub ordered : at.start ≤ at.end
  pub inside : at.end ≤ length buf
  pub reads : I.deserialize_content (part buf at) ≡ some packet

-- Packets that are read from the buffer, and not more than `most`; or one could not be read.
abbrev pub AreRead : {P : Type 0} → Packet P → Bytes → ℕ → Option (PacketBasedInput P) → Type 0
AreRead I buf most none = Unit
AreRead I buf most (some packets) = All (IsRead I buf) packets × (length packets ≤ most)

module _ {P : Type 0} (I : Packet P) (buf : Bytes) where
  open I use {deserialize_content}

  AreRead-raise :
      {a b : ℕ} → a ≤ b → (r : Option (PacketBasedInput P)) → AreRead I buf a r → AreRead I buf b r
  AreRead-raise le none g = tt
  AreRead-raise le (some ps) g = (g.0, omega (arith, g.1, le))

  raise :
      {a b : ℕ} {o : Option (Option (PacketBasedInput P))}
      → a ≤ b
      → Returns (AreRead I buf a) o
      → Returns (AreRead I buf b) o
  raise le r = record { result = r.result; at = r.at; good = AreRead-raise le r.result r.good }

  snoc :
      (packets : List P) (most : ℕ) (r : Range) {packet : P}
      → All (IsRead I buf) packets × (length packets ≤ most)
      → r.start ≤ r.end
      → r.end ≤ length buf
      → deserialize_content (part buf r) ≡ some packet
      → All (IsRead I buf) (packets ++ packet ∷ []) × (length (packets ++ packet ∷ []) ≤ most + 1)
  snoc packets most r {packet} (all, few) o i e = (
    All-append (IsRead I buf) packets (packet ∷ []) all
        (record { at = r; ordered = o; inside = i; reads = e }, tt),
    omega (arith, length-append packets (packet ∷ []), few),
  )

  Returns-parse_rest :
      (cursor : ℕ) (packets : List P) (most : ℕ)
      → All (IsRead I buf) packets × (length packets ≤ most)
      → Returns (AreRead I buf (most + 1)) (parse_rest I buf cursor packets)
  unfolding parse_rest
  Returns-parse_rest cursor packets most h =
      Returns-if (ltb cursor (length buf))
        (λ more.
          let r = range cursor (length buf) in
          let room : cursor ≤ length buf = ground arith in
          Returns-bind _ (slice-part buf r room (omega arith))
            (at_end room (deserialize_content (part buf r)) refl))
        λ none_left. record { result = some packets; at = refl; good = (h.0, omega (arith, h.1)) }
    where
      at_end :
          cursor ≤ length buf
          → (o : Option P) → deserialize_content (part buf (range cursor (length buf))) ≡ o
          → Returns (AreRead I buf (most + 1)) (some (pushed I packets o))
      at_end room none e = record { result = none; at = refl; good = tt }
      at_end room (some packet) e = record {
        result = some (packets ++ packet ∷ []);
        at = refl;
        good = snoc packets most (range cursor (length buf)) h room (omega arith) e;
      }

  -- Fuel for all rounds: the cursor moves on in each.
  Returns-parse_loop :
      (fuel start cursor : ℕ) (packets : List P) (most : ℕ)
      → All (IsRead I buf) packets × (length packets ≤ most)
      → start ≤ cursor
      → cursor ≤ length buf
      → length buf < fuel + cursor
      → Returns (AreRead I buf (most + fuel)) (parse_loop I fuel buf start cursor packets)
  unfolding parse_loop
  Returns-parse_loop zero start cursor packets most h s c f = absurd (omega arith)
  Returns-parse_loop (suc fuel) start cursor packets most h s c f =
      Returns-if (ltb cursor (length buf))
        (λ more.
          Returns-if (ltb (length buf) (cursor + 8))
            (λ _. later (Returns-parse_rest cursor packets most h))
            λ wide.
              let room : cursor + 8 ≤ length buf = ground arith in
              Returns-bind _ (slice-part buf (range cursor (cursor + 8)) (omega arith) room) (
                Returns-if (bytes_eq (part buf (range cursor (cursor + 8))) separator)
                  (λ _. Returns-bind _ (slice-part buf (range start cursor) s c) (
                    Returns-elim _ (deserialize_content (part buf (range start cursor)))
                      (record { result = none; at = refl; good = tt })
                      λ packet e. more_fuel (
                        Returns-parse_loop fuel (cursor + 8) (cursor + 8) (packets ++ packet ∷ [])
                          (most + 1) (snoc packets most (range start cursor) h s c e) (omega arith)
                          room (omega arith))))
                  λ _. more_fuel (
                    Returns-parse_loop fuel start (cursor + 1) packets (most + 1)
                      (h.0, omega (arith, h.1)) (omega arith) (omega arith) (omega arith))))
        λ _. later (Returns-parse_rest cursor packets most h)
    where
      later :
          {o : Option (Option (PacketBasedInput P))}
          → Returns (AreRead I buf (most + 1)) o
          → Returns (AreRead I buf (most + suc fuel)) o
      later r = raise (omega arith) r

      more_fuel :
          {o : Option (Option (PacketBasedInput P))}
          → Returns (AreRead I buf (most + 1 + fuel)) o
          → Returns (AreRead I buf (most + suc fuel)) o
      more_fuel r = raise (omega arith) r

  -- `parse_txt` ends on any bytes, without a panic: no slice is out of range, and its loop makes at most
  -- one round more than there are bytes. Either one packet could not be read, or all packets that it
  -- returns are what parts of the buffer are read as, and there is at most one more of them than there
  -- are bytes.
  pub parse_txt-AreRead :
      (r : Option (PacketBasedInput P)) × (parse_txt I buf ≡ some r)
      × AreRead I buf (length buf + 1) r
  unfolding parse_txt
  parse_txt-AreRead =
      let r =
        Returns-parse_loop (length buf + 1) 0 0 [] 0 (tt, omega arith) (omega arith) (omega arith)
          (omega arith) in
      (r.result, r.at, AreRead-raise (omega arith) r.result r.good)
