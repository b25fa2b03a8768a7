-- ===== src/Suite/Input.antt =====
-- The test in fuzzer/src/input.rs. An outer `none` is a panic; the first line that it prints, in the
-- derived format `{:?}`, is not modelled.
use exim_fuzzer.Base.{Option, none, some, Bytes, codes, if◌then◌else◌, replicate}
use exim_fuzzer.Fallible.{◌>>=◌}
use exim_fuzzer.Input.{convert_to_txt, parse_txt}
use exim_fuzzer.Token.Deserialize.{stream_packet}
use exim_fuzzer.Utf8.{is_utf8}
use exim_fuzzer.Vec.{range, slice}

unfoldable pub test_txt : Option Bytes
test_txt = do
  parsed ← parse_txt stream_packet (codes "----------------abc")
  input ← parsed
  (size, buf) ← convert_to_txt stream_packet input (replicate 1024 0)
  line ← slice buf (range 0 size)
  if is_utf8 line then some line else none
