-- ===== src/Sandbox/CommandLine/Tests.antt =====
-- Command lines from the tests of src/sandbox/sandbox_utils.rs, and the round trip of one.
use foxhole.Prelude.{◌≡◌, refl, [], ◌∷◌, codes}
use foxhole.Sandbox.CommandLine.{
  build_windows_command_line, quote_windows_arg, quoted_rest, is_white,
}
use foxhole.Sandbox.CommandLine.Splitter.{
  splitter, splitter-ReadsProgram, splitter-ReadsArguments, read_program,
}
use foxhole.Sandbox.CommandLine.RoundTrip.{build_windows_command_line_round_trip}

embedded_quote : quote_windows_arg (codes "a\"b") ≡ codes "\"a\\\"b\""
unfolding quote_windows_arg quoted_rest is_white
embedded_quote = refl

trailing_backslash :
    quote_windows_arg (codes "C:\\path with space\\") ≡ codes "\"C:\\path with space\\\\\""
unfolding quote_windows_arg quoted_rest is_white
trailing_backslash = refl

build_windows_command_line_round_trip_example :
    let line =
      build_windows_command_line
        (codes "C:\\a b\\x.exe")
        (codes "" ∷ codes "a\"b" ∷ codes "c d\\" ∷ codes "e" ∷ []) in
    ((read_program line).0 ≡ codes "C:\\a b\\x.exe")
    × (splitter.arguments (read_program line).1
        ≡ codes "" ∷ codes "a\"b" ∷ codes "c d\\" ∷ codes "e" ∷ [])
build_windows_command_line_round_trip_example =
    build_windows_command_line_round_trip splitter splitter-ReadsProgram splitter-ReadsArguments
      (codes "C:\\a b\\x.exe") (codes "" ∷ codes "a\"b" ∷ codes "c d\\" ∷ codes "e" ∷ []) refl refl
