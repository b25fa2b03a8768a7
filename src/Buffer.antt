-- ===== src/Buffer.antt =====
-- Byte buffers: `copy_from_slice` into a part of a buffer, and what a sequence of such writes
-- leaves in it.
pub mod Laws
use exim_fuzzer.Base.{
  ℕ, ◌-◌, ◌&&◌, Option, none, some, [], ◌∷◌, ◌++◌, ◌==◌, if◌then◌else◌, Bytes, length, take, drop,
}
use exim_fuzzer.Vec.{Range, in_range}

-- `buf[r].copy_from_slice(src)`: a panic if the range or the lengths do not fit
unfoldable pub copy_into : Bytes → Range → Bytes → Option Bytes
copy_into buf r src =
    if in_range r (length buf) && r.end - r.start == length src
    then some (take r.start buf ++ (src ++ drop r.end buf))
    else none

-- The buffer with as much of `src` written to its beginning as it can hold.
abbrev pub overwrite : Bytes → Bytes → Bytes
overwrite [] src = []
overwrite (b ∷ buf) [] = b ∷ buf
overwrite (b ∷ buf) (x ∷ src) = x ∷ overwrite buf src
