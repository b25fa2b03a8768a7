-- ===== src/Mutate/Keeps/Tokens.antt =====
-- What becomes of one token under the mutators.
use exim_fuzzer.Base.{ℕ, ◌≤◌, ◌≡◌, sym, subst, true, false, List, [], ◌∷◌, arith, Bytes, length}
use exim_fuzzer.Mutate.Interesting.{MadeInteresting, interesting, interesting-IsNumber}
use exim_fuzzer.Mutate.Repeat.{Stretched}
use exim_fuzzer.Mutate.Special.{Extended, Altered}
use exim_fuzzer.Token.{TextToken, constant, text, verify_text_byte, with_data, is_constant}
use mathlib.Core.List.{Memᴰ}
use exim_fuzzer.Token.Constants.{ConstantOf, IsTokenOf, with_data-ConstantOf}
use exim_fuzzer.Token.Random.Laws.{All-Mem}
use exim_fuzzer.Token.WellFormed.{All, IsNumber, IsWellFormed}
use exim_fuzzer.Token.WellFormed.Parts.{IsWellFormed-repeat}
use exim_fuzzer.Vec.Laws.{Spliced, length-Spliced}
use exim_fuzzer.Mutate.Keeps.{All-Spliced}

module _ (C : Bytes → Type 0) (old new : TextToken) where
  pub Same-IsTokenOf :
      (b : Bytes)
      → is_constant old ≡ false
      → new ≡ with_data old b
      → (IsWellFormed old → IsWellFormed new)
      → IsTokenOf C old
      → IsTokenOf C new
  Same-IsTokenOf b plain now w h =
      (w h.0, subst (ConstantOf C) (sym now) (with_data-ConstantOf C old b plain))

  pub Listed-IsTokenOf :
      {dict : List Bytes} {item : Bytes}
      → All C dict
      → Memᴰ item dict
      → new ≡ constant item
      → IsTokenOf C old
      → IsTokenOf C new
  Listed-IsTokenOf {dict} {item} good m now _ =
      subst (IsTokenOf C) (sym now) (tt, All-Mem C item dict good m)

  pub Stretched-IsTokenOf :
      {amount : ℕ} → Stretched amount old new → IsTokenOf C old → IsTokenOf C new
  Stretched-IsTokenOf q =
      Same-IsTokenOf _ q.not_constant q.stretched λ w.
        subst IsWellFormed (sym q.stretched) (IsWellFormed-repeat old q.here _ q.at q.not_sign w)

  -- A text that gets a byte which `verify` accepts.
  text-IsTokenOf :
      {before after replaced : Bytes} {byte : ℕ}
      → old ≡ text before
      → new ≡ text after
      → Spliced before replaced (byte ∷ []) after
      → length replaced ≤ 1
      → verify_text_byte byte ≡ true
      → IsTokenOf C old
      → IsTokenOf C new
  text-IsTokenOf {before} was now splice few special h =
      let w : IsWellFormed (text before) = subst IsWellFormed was h.0 in
      subst (IsTokenOf C) (sym now) (
        (
          omega (arith, length-Spliced splice, w.0),
          All-Spliced (λ b. verify_text_byte b ≡ true) splice w.1 (special, tt),
        ),
        tt,
      )

  pub Extended-IsTokenOf : Extended old new → IsTokenOf C old → IsTokenOf C new
  Extended-IsTokenOf q =
      text-IsTokenOf q.text_before q.text_after q.splice (omega arith) q.is_special

  pub Altered-IsTokenOf : Altered old new → IsTokenOf C old → IsTokenOf C new
  Altered-IsTokenOf q =
      text-IsTokenOf q.text_before q.text_after q.splice (omega arith) q.is_special

  pub MadeInteresting-IsTokenOf : MadeInteresting old new → IsTokenOf C old → IsTokenOf C new
  MadeInteresting-IsTokenOf q _ =
      subst (IsTokenOf C) (sym q.now)
        (All-Mem IsNumber q.bytes interesting interesting-IsNumber q.listed, tt)
