-- ===== src/Utf8.antt =====
-- `std::str::from_utf8`, the standard library's check that a byte string is well-formed UTF-8: lead
-- bytes, their numbers of continuation bytes, and the bounds on the first of these that exclude
-- overlong forms, surrogates and code points above 0x10ffff.
use exim_fuzzer.Base.{
  ℕ, zero, suc, ◌≡◌, Bool, true, false, ◌&&◌, [], ◌∷◌, leb, ltb, ◌==◌, if◌then◌else◌, Bytes, refl,
}
use exim_fuzzer.Token.WellFormed.{AllBytes}
use exim_fuzzer.Token.Parse.Next.{is_ascii}

-- What a lead byte asks for: the number of continuation bytes, and the bounds of the first.
record Lead : Type 0 where
  pub count : ℕ
  pub low : ℕ
  pub high : ℕ

abbrev within : ℕ → ℕ → ℕ → Bool
within lo hi b = leb lo b && leb b hi

-- A byte that leads no sequence asks for a continuation that no byte can be.
lead_of : ℕ → Lead
lead_of b =
    if ltb b 0x80
    then record { count = 0; low = 0x80; high = 0xbf }
    else if within 0xc2 0xdf b
    then record { count = 1; low = 0x80; high = 0xbf }
    else if b == 0xe0
    then record { count = 2; low = 0xa0; high = 0xbf }
    else if b == 0xed
    then record { count = 2; low = 0x80; high = 0x9f }
    else if within 0xe1 0xef b
    then record { count = 2; low = 0x80; high = 0xbf }
    else if b == 0xf0
    then record { count = 3; low = 0x90; high = 0xbf }
    else if within 0xf1 0xf3 b
    then record { count = 3; low = 0x80; high = 0xbf }
    else if b == 0xf4
    then record { count = 3; low = 0x80; high = 0x8f }
    else record { count = 1; low = 1; high = 0 }

utf8_from : ℕ → ℕ → ℕ → Bytes → Bool
utf8_from zero lo hi [] = true
utf8_from (suc n) lo hi [] = false
utf8_from zero lo hi (b ∷ bs) = utf8_from (lead_of b).count (lead_of b).low (lead_of b).high bs
utf8_from (suc n) lo hi (b ∷ bs) = within lo hi b && utf8_from n 0x80 0xbf bs

unfoldable pub is_utf8 : Bytes → Bool
unfolding utf8_from lead_of
is_utf8 = utf8_from 0 0x80 0xbf

lead_of-ascii :
    (b : ℕ) → is_ascii b ≡ true → lead_of b ≡ record { count = 0; low = 0x80; high = 0xbf }
unfolding lead_of
lead_of-ascii b h = rw h

utf8_from-ascii : (lo hi : ℕ) (s : Bytes) → AllBytes is_ascii s → utf8_from 0 lo hi s ≡ true
unfolding utf8_from
utf8_from-ascii lo hi [] a = refl
utf8_from-ascii lo hi (b ∷ s) a =
    rw (lead_of-ascii b a.0, utf8_from) (utf8_from-ascii 0x80 0xbf s a.1)

-- ASCII is well-formed.
pub is_utf8-ascii : (s : Bytes) → AllBytes is_ascii s → is_utf8 s ≡ true
unfolding is_utf8
is_utf8-ascii = utf8_from-ascii 0x80 0xbf
