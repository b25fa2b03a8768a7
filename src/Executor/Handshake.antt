-- ===== src/Executor/Handshake.antt =====
-- `do_forkserver_handshake`
pub mod Protocol
pub mod Errors
pub mod Panics
use Prim.Native.Nat.{bit_and, bit_xor}
use exim_fuzzer.Base.{ℕ, Bool, not, ◌&&◌, Option, none, some, Bytes, ◌==◌, if◌then◌else◌}
use exim_fuzzer.Io.{
  Io, Reply, Error, instrumentation_complained, old_version, unsupported_version, end_not_caught,
  pure, fail, call, ◌>>=◌, ◌>>◌, u32_sub,
}
use exim_fuzzer.Executor.Server.{Forkserver, i32_lt, i32_as_usize}

-- `FS_NEW_ERROR`, `FS_NEW_OPT_MAPSIZE` and `FS_NEW_OPT_AUTODTCT`
abbrev pub fs_new_error : ℕ
fs_new_error = 0xeffe0000

abbrev pub fs_new_opt_mapsize : ℕ
fs_new_opt_mapsize = 1

abbrev pub fs_new_opt_autodtct : ℕ
fs_new_opt_autodtct = 0x00000800

-- `(0x41464c00..0x41464cff).contains(&status)`
unfoldable pub is_version : ℕ → Bool
unfolding i32_lt
is_version status = not (i32_lt status 0x41464c00) && i32_lt status 0x41464cff

module _ (server : Forkserver) where
  open server use {State, read_st, read_st_of_len, write_ctl}

  unfoldable pub read_map_size : ℕ → Io State (Option ℕ)
  unfolding i32_as_usize
  read_map_size status =
      if bit_and status fs_new_opt_mapsize == fs_new_opt_mapsize
      then (do size ← call read_st; pure (some (i32_as_usize size)))
      else pure none

  -- The dictionary itself is dropped.
  unfoldable pub skip_dictionary : ℕ → Io State (Unit {0})
  unfolding i32_as_usize
  skip_dictionary status =
      if not (bit_and status fs_new_opt_autodtct == 0)
      then (do size ← call read_st; _ ← read_st_of_len (i32_as_usize size); pure tt)
      else pure tt

  unfoldable pub do_forkserver_handshake : Io State (Option ℕ)
  do_forkserver_handshake = do
    version_status ← call read_st
    if bit_and version_status fs_new_error == fs_new_error
        then fail instrumentation_complained
        else if not (is_version version_status)
        then fail old_version
        else do
          version ← u32_sub version_status 0x41464c00
          if not (version == 1) then fail unsupported_version else do
            _ ← call (write_ctl (bit_xor version_status 0xffffffff))
            status ← call read_st
            map_size ← read_map_size status
            _ ← skip_dictionary status
            last ← call read_st
            if not (last == version_status) then fail end_not_caught else pure map_size
