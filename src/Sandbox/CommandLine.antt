-- ===== src/Sandbox/CommandLine.antt =====
-- The command line of a sandboxed program: `quote_windows_arg` and `build_windows_command_line`
-- of src/sandbox/sandbox_utils.rs.
pub mod Parsing
pub mod Arguments
pub mod RoundTrip
pub mod Splitter
mod Tests
use foxhole.Prelude.{
  ℕ, suc, ◌*◌, Bool, not, ◌||◌, List, [], ◌∷◌, ◌++◌, map, ◌==◌, if◌then◌else◌, any, is_empty,
  replicate, Text, is_whitespace,
}

abbrev pub backslash : ℕ
backslash = 0x5c

abbrev pub quote : ℕ
quote = 0x22

abbrev pub space : ℕ
space = 0x20

-- Shut, so that the table of whitespace stays out of the proofs.
unfoldable pub is_white : ℕ → Bool
is_white c = is_whitespace c

abbrev pub needs_quotes : ℕ → Bool
needs_quotes c = is_white c || c == quote

-- What the loop pushes from `s` on, with `backslashes` pending, and the closing quote.
unfoldable pub quoted_rest : (backslashes : ℕ) → Text → Text
quoted_rest backslashes [] = replicate (backslashes * 2) backslash ++ quote ∷ []
quoted_rest backslashes (c ∷ s) =
    let pending = quoted_rest (suc backslashes) s in
    let escaped = replicate (suc (backslashes * 2)) backslash ++ quote ∷ quoted_rest 0 s in
    let plain = replicate backslashes backslash ++ c ∷ quoted_rest 0 s in
    if c == backslash then pending else if c == quote then escaped else plain

unfoldable pub quote_windows_arg : Text → Text
quote_windows_arg arg =
    if is_empty arg
    then quote ∷ quote ∷ []
    else if not (any needs_quotes arg)
    then arg
    else quote ∷ quoted_rest 0 arg

-- `join(" ")`
unfoldable pub join_spaced : List Text → Text
join_spaced [] = []
join_spaced (s ∷ []) = s
join_spaced (s ∷ (t ∷ rest)) = s ++ space ∷ join_spaced (t ∷ rest)

unfoldable pub build_windows_command_line : Text → List Text → Text
build_windows_command_line program args = join_spaced (map quote_windows_arg (program ∷ args))
