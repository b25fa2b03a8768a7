-- ===== src/Campaign/Monitor.antt =====
-- The closure of `disk_monitor` in fuzzer/src/main.rs, which says when the log is written. The clock, in
-- seconds, is an argument. `none` is the panic of the subtraction in a debug build.
use mathlib.Core.List.{Memᴰ}
use exim_fuzzer.Base.{
  ℕ, ◌+◌, ◌-◌, ◌≤◌, ◌<◌, ◌≡◌, refl, Bool, true, false, Option, none, some, List, [], ◌∷◌, leb,
  if◌then◌else◌, arith, Bool-cases, inl, inr,
}
use exim_fuzzer.Fallible.{◌>>=◌, checked_sub, checked_sub_le}
use exim_fuzzer.Token.WellFormed.{All}

-- One call: whether to write, and the new `last_updated`.
unfoldable pub update : ℕ → ℕ → Option (Bool × ℕ)
update now last_updated = do
  elapsed ← checked_sub now last_updated
  some (if leb 60 elapsed then (true, now) else (false, last_updated))

-- The times of the calls that write, of calls at these times.
unfoldable pub updates : List ℕ → ℕ → Option (List ℕ)
updates [] last_updated = some []
updates (now ∷ times) last_updated = do
  (writes, last') ← update now last_updated
  written ← updates times last'
  some (if writes then now ∷ written else written)

-- Times in their order, from a time on.
abbrev pub Ordered : ℕ → List ℕ → Type 0
Ordered from [] = Unit
Ordered from (t ∷ ts) = (from ≤ t) × Ordered t ts

-- Each time is a minute or more after the one before.
abbrev pub Spaced : ℕ → List ℕ → Type 0
Spaced from [] = Unit
Spaced from (t ∷ ts) = (from + 60 ≤ t) × Spaced t ts

-- Less than a minute before this time, or at it, the log was written.
abbrev pub Recent : List ℕ → ℕ → Type 0
Recent written t = (w : ℕ) × Memᴰ w written × (w ≤ t) × (t < w + 60)

-- A clock that goes back since the last write makes the call panic in a debug build.
pub update-panics : (now last_updated : ℕ) → now < last_updated → update now last_updated ≡ none
unfolding update checked_sub
update-panics now last_updated h =
    let back : leb last_updated now ≡ false = ground arith in rw back refl

Recent-later : (x : ℕ) (ws ts : List ℕ) → All (Recent ws) ts → All (Recent (x ∷ ws)) ts
Recent-later x ws [] h = tt
Recent-later x ws (t ∷ ts) ((w, m, r, l), h) = ((w, Memᴰ.tail m, r, l), Recent-later x ws ts h)

-- Where the clock never goes back, no call panics, the writes are at least a minute apart, the first one
-- too from `last_updated`; and at every call the last write, or `last_updated`, is less than a minute
-- ago, so a call that is due writes.
pub updates_lem :
    (times : List ℕ) (from last_updated : ℕ)
    → last_updated ≤ from
    → Ordered from times
    → (written : List ℕ) × (updates times last_updated ≡ some written)
      × Spaced last_updated written
      × All (Recent (last_updated ∷ written)) times
unfolding updates update
updates_lem [] from last le o = ([], refl, tt, tt)
updates_lem (t ∷ ts) from last le (first, o) =
    let elapsed = checked_sub_le t last (omega arith) in
    elim (Bool-cases (leb 60 (t - last))) [
      | inl due ↦
          let (ws, e, spaced, recent) = updates_lem ts t t (omega arith) o in
          (
            t ∷ ws,
            rw (elapsed, due, e) refl,
            (ground arith, spaced),
            (
              (t, Memᴰ.tail (Memᴰ.head refl), omega arith, omega arith),
              Recent-later last (t ∷ ws) ts recent,
            ),
          )
      | inr early ↦
          let (ws, e, spaced, recent) = updates_lem ts t last (omega arith) o in
          (
            ws,
            rw (elapsed, early, e) refl,
            spaced,
            ((last, Memᴰ.head refl, omega arith, ground arith), recent),
          )
    ]
