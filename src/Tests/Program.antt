-- ===== src/Tests/Program.antt =====
-- The parts of the main program: cores, the log, and printing.
use exim_fuzzer.Base.{
  ℕ, ◌%◌, ◌<◌, ◌≡◌, ◌≢◌, refl, Bool, true, false, Option, none, some, List, [], ◌∷◌, Bytes, codes,
  arith, get_elem?, get_elem?-lt, length,
}
use exim_fuzzer.Campaign.Cores.{this_binary, this_binary_lem}
use exim_fuzzer.Campaign.Monitor.{updates, Spaced, Recent, updates_lem}
use exim_fuzzer.Campaign.Print.{print, text, from_file, print_lem}
use exim_fuzzer.Input.{PacketBasedInput, parse_txt, parse_loop, bytes_eq, parse_rest}
use exim_fuzzer.Input.Total.{AreRead, parse_txt-AreRead}
use exim_fuzzer.Packet.{bytes_packet, bytes_deserialize_content}
use exim_fuzzer.Token.WellFormed.{All}
use exim_fuzzer.Vec.{slice}

abbrev exim : Bytes
exim = codes "exim"

abbrev extra : List Bytes
extra = codes "exim-asan" ∷ []

abbrev cores : List ℕ
cores = 3 ∷ 5 ∷ 7 ∷ []

only : (j : ℕ) → 2 < j → get_elem? cores j ≢ some 7
only j h e = absurd (omega (arith, get_elem?-lt cores j e))

this_binary_lem_example :
    (binary : Bytes) × (this_binary extra (exim ∷ []) cores 7 ≡ some binary)
    × (get_elem? (exim ∷ extra) (2 % length (exim ∷ extra)) ≡ some binary)
this_binary_lem_example = this_binary_lem extra exim [] cores 7 2 refl only

updates_lem_example :
    (written : List ℕ) × (updates (100 ∷ 130 ∷ 160 ∷ []) 0 ≡ some written)
    × Spaced 0 written
    × All (Recent (0 ∷ written)) (100 ∷ 130 ∷ 160 ∷ [])
updates_lem_example =
    updates_lem (100 ∷ 130 ∷ 160 ∷ []) 0 0 (omega arith)
      (omega arith, (omega arith, (omega arith, tt)))

abbrev read : ℕ → Option Bytes
read _ = some (codes "EHLO--------QUIT")

abbrev is_txt : ℕ → Bool
is_txt _ = true

abbrev no_postcard : Bytes → Option (PacketBasedInput Bytes)
no_postcard _ = none

abbrev no_format : PacketBasedInput Bytes → Option Bytes
no_format _ = none

abbrev session : PacketBasedInput Bytes
session = codes "EHLO" ∷ codes "QUIT" ∷ []

session_file : from_file bytes_packet read is_txt no_postcard no_format 0 ≡ some (some session)
unfolding from_file parse_txt parse_loop parse_rest bytes_eq slice bytes_deserialize_content
session_file = refl

print_lem_example :
    print bytes_packet read is_txt no_postcard no_format 30 false 0
    ≡ some (some (text bytes_packet read is_txt no_postcard no_format session))
print_lem_example =
    print_lem bytes_packet read is_txt no_postcard no_format 30 0 session session_file (omega arith)

parse_txt-AreRead_example :
    (r : Option (PacketBasedInput Bytes)) × (parse_txt bytes_packet (codes "--------") ≡ some r)
    × AreRead bytes_packet (codes "--------") 9 r
parse_txt-AreRead_example = parse_txt-AreRead bytes_packet (codes "--------")
