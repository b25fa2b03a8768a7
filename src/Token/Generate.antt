-- ===== src/Token/Generate.antt =====
-- fuzzer/src/tokens/tokenstream.rs: `create_random_packet` and `generate_packets`. The source of random
-- numbers is that of the fuzzer's state.
pub mod Laws
use exim_fuzzer.Base.{
  ℕ, zero, suc, ◌+◌, ◌==◌, if◌then◌else◌, Option, none, some, List, [], ◌∷◌, ◌++◌, Bytes, codes,
  get_elem?,
}
use exim_fuzzer.Fallible
use exim_fuzzer.Rand.{Rand}
use exim_fuzzer.Run.{Run, pure, panic, lift, ◌>>=◌}
use exim_fuzzer.Token.{TextToken, TokenStream}
use exim_fuzzer.Token.Parse.{from_str}
use exim_fuzzer.Token.Deserialize.{parse_ok}
use exim_fuzzer.Token.Random.{random_number, random_whitespace, random_text}

-- The literals of the arms of `generate_packets`, in their order from 0 to 17.
unfoldable pub commands : List (List Bytes)
commands =
    (codes "HELO my.domain\r\n" ∷ [])
    ∷ (codes "EHLO [127.0.0.1]\r\n" ∷ [])
    ∷ (codes "EHLO IPv6:2001:0db8:85a3:0000:0000:8a2e:0370:7334\r\n" ∷ [])
    ∷ (codes "MAIL FROM:<user@[IPv6:::ffff:7f00:1]>\r\n" ∷ [])
    ∷ (codes "RCPT TO:<postmaster@localhost>\r\n" ∷ [])
    ∷ (codes "DATA\r\n"
        ∷ codes
            "From: \"User Name\" <username@gmail.com>\r\nTo: \"John Smith\" <john@example.com>\r\nSubject: This is a test\r\n\r\ncontent\r\n"
        ∷ codes ".\r\n"
        ∷ [])
    ∷ (codes "RSET\r\n" ∷ [])
    ∷ (codes "VRFY user\r\n" ∷ [])
    ∷ (codes "EXPN mailing-list\r\n" ∷ [])
    ∷ (codes "QUIT\r\n" ∷ [])
    ∷ (codes "ATRN localhost,my.domain\r\n" ∷ [])
    ∷ (codes "AUTH PLAIN\r\n"
        ∷ codes "AHRlc3QAdGVzdA==\r\n"
        ∷ codes "ATRN localhost,my.domain\r\n"
        ∷ [])
    ∷ (codes "BDAT 10\r\n"
        ∷ codes "AAAAAAAAAA"
        ∷ codes "BDAT 10 LAST\r\n"
        ∷ codes "BBBBBBBBBB"
        ∷ [])
    ∷ (codes "MAIL FROM:<user@localhost> BODY=8BITMIME\r\n" ∷ [])
    ∷ (codes "MAIL FROM:<user@localhost> BODY=BINARYMIME\r\n" ∷ [])
    ∷ (codes "AUTH PLAIN AHRlc3QAdGVzdA==\r\n" ∷ [])
    ∷ (codes "SIZE 1000\r\n" ∷ [])
    ∷ (codes "MAIL FROM:<yaboi@localhost> SIZE=1234\r\n" ∷ [])
    ∷ []

-- `ret.push(literal.parse().unwrap())` for each literal of an arm.
unfoldable pub push_parsed : List Bytes → Option (List TokenStream)
unfolding parse_ok
push_parsed [] = some []
push_parsed (line ∷ lines) =
    Fallible.◌>>=◌ (parse_ok (from_str line))
      λ packet. Fallible.◌>>=◌ (push_parsed lines) λ ret. some (packet ∷ ret)

module _ (R : Rand) where
  open R use {State, between}

  -- The `match` of `create_random_packet`.
  unfoldable pub packet_token : Run State TextToken
  packet_token = do
    k ← between 0 2
    if k == 0
        then random_text R 1 8
        else if k == 1
        then random_whitespace R 1 4
        else if k == 2
        then random_number R 8
        else panic

  -- The loop, with the rounds that are left.
  unfoldable pub push_tokens : ℕ → TokenStream → Run State TokenStream
  unfolding packet_token
  push_tokens zero tokens = pure tokens
  push_tokens (suc n) tokens = do token ← packet_token; push_tokens n (tokens ++ token ∷ [])

  unfoldable pub create_random_packet : Run State TokenStream
  unfolding push_tokens
  create_random_packet = do more ← between 0 15; push_tokens (1 + more) []

  -- A number without an arm is the `unreachable!`.
  unfoldable pub generate_packets : Run State (List TokenStream)
  unfolding push_parsed commands
  generate_packets = do
    k ← between 0 17
    lines ← lift (get_elem? commands k)
    lift (push_parsed lines)
