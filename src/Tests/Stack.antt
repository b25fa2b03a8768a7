-- ===== src/Tests/Stack.antt =====
-- The mutators that use the corpus, with a corpus of one input and a dictionary.
use exim_fuzzer.Base.{
  ℕ, ◌≡◌, Option, some, none, List, [], ◌∷◌, Bytes, codes, arith, subst, some-injective, length,
}
use exim_fuzzer.Mutate.Keeps.{InOrder}
use exim_fuzzer.Mutators.Content.{packet_content, packet_content_lem}
use exim_fuzzer.Mutators.Token.{mutate_packet}
use exim_fuzzer.Mutators.Token.InOrder.{mutate_packet-InOrder}
use exim_fuzzer.Run.{pure}
use exim_fuzzer.Run.Ensures.{Ensures, Ensures-pure}
use exim_fuzzer.Tests.Counter.{counter}
use exim_fuzzer.Token.{
  TokenStream, constant, number, text, digit_byte, sign_byte, verify_text_byte, contains,
}
use exim_fuzzer.Token.WellFormed.{All}
use exim_fuzzer.Token.Constants.{Anything, AllTokensOf}

abbrev rcpt : TokenStream
rcpt = constant (codes "RCPT") ∷ number (codes "-3") ∷ []

abbrev packets : List TokenStream
packets = (text (codes "EHLO") ∷ []) ∷ []

abbrev dict : Option (List Bytes)
dict = some (codes "QUIT" ∷ [])

abbrev load : ℕ → Option (List TokenStream)
load _ = some packets

packets_lem : All (AllTokensOf Anything) packets
unfolding verify_text_byte contains
packets_lem = ground arith

stored_lem : (id : ℕ) (ps : List TokenStream) → load id ≡ some ps → All (AllTokensOf Anything) ps
stored_lem id ps e = subst (All (AllTokensOf Anything)) (some-injective e) packets_lem

known : (d : List Bytes) → dict ≡ some d → All Anything d
known d e = subst (All Anything) (some-injective e) (tt, tt)

rcpt_lem : InOrder Anything 10 rcpt
unfolding digit_byte sign_byte
rcpt_lem = ground arith

mutate_packet-InOrder_example :
    Ensures
      (λ r. InOrder Anything 10 r.1)
      (mutate_packet counter 8 dict (pure 0) none load counter rcpt)
mutate_packet-InOrder_example =
    mutate_packet-InOrder Anything counter 8 10 dict (pure 0) none load (Ensures-pure 0 tt)
      stored_lem known (omega arith) (omega arith) counter rcpt rcpt_lem

-- With the stacked mutator, the content mutator keeps all streams of an input in order.
packet_content_lem_example :
    Ensures
      (λ r. All (InOrder Anything 10) r.1 × (length r.1 ≡ 1))
      (packet_content counter (mutate_packet counter 8 dict (pure 0) none load counter) (rcpt ∷ []))
packet_content_lem_example =
    packet_content_lem counter (mutate_packet counter 8 dict (pure 0) none load counter)
      (InOrder Anything 10)
      (λ p ok.
        mutate_packet-InOrder Anything counter 8 10 dict (pure 0) none load (Ensures-pure 0 tt)
          stored_lem known (omega arith) (omega arith) counter p ok)
      (rcpt ∷ []) (rcpt_lem, tt)
