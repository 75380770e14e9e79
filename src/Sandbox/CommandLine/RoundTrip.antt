-- ===== src/Sandbox/CommandLine/RoundTrip.antt =====
-- What a program reads back from a command line that src/sandbox/sandbox_utils.rs built.
use foxhole.Prelude.{
  ℕ, suc, ◌≡◌, refl, ap, ◌∙◌, ◌⊎◌, inl, inr, true, false, ◌||◌, List, [], ◌∷◌, ◌++◌, map, ◌==◌, any,
  replicate, Text, Bool-cases, ==_iff, arith, ends_with_char,
}
use mathlib.Core.List.{append-nil, append_assoc}
use foxhole.Sandbox.CommandLine.{
  backslash, quote, space, needs_quotes, quoted_rest, quote_windows_arg, build_windows_command_line,
}
use foxhole.Sandbox.CommandLine.Parsing.{
  ArgumentParsing, ReadsProgram, ReadsArguments, is_blank_char, starts,
}
use foxhole.Sandbox.CommandLine.Arguments.{
  spaced, build_windows_command_line-spaced, is_white-is_blank_char, replicate_snoc,
  arguments-spaced,
}

-- A program's name in quotes, if it has no quote and does not end in a backslash.
quoted_rest-name :
    (n c : ℕ) (name : Text)
    → any (λ d. d == quote) (c ∷ name) ≡ false
    → ends_with_char backslash (c ∷ name) ≡ false
    → quoted_rest n (c ∷ name) ≡ replicate n backslash ++ c ∷ (name ++ quote ∷ [])
unfolding quoted_rest
quoted_rest-name n c [] unmarked solid =
    let unquoted : (c == quote) ≡ false = ground arith in rw (solid, unquoted) refl
quoted_rest-name n c (d ∷ name) unmarked solid = elim (Bool-cases (c == backslash)) [
  | inl slash ↦
      let same : c ≡ backslash = (==_iff c backslash).0 slash in
      rw slash (
        quoted_rest-name (suc n) d name (ground arith) solid
        ∙ rw (same, replicate_snoc n (d ∷ (name ++ quote ∷ []))) refl)
  | inr other ↦
      let unquoted : (c == quote) ≡ false = ground arith in
      rw (other, unquoted, quoted_rest-name 0 d name (ground arith) solid) refl
]

bare_name :
    (name : Text)
    → any needs_quotes name ≡ false
    → any (λ c. is_blank_char c || c == quote) name ≡ false
bare_name [] free = refl
bare_name (c ∷ name) free = ground (arith, is_white-is_blank_char c, bare_name name (ground arith))

module _ {p : ArgumentParsing} (reads : ReadsProgram p) where
  -- The name that is read back, with nothing or with a space behind it.
  program-quote_windows_arg :
      (name s : Text)
      → any (λ c. c == quote) name ≡ false
      → ends_with_char backslash name ≡ false
      → starts space s ≡ true ⊎ (s ≡ [])
      → p.program (quote_windows_arg name ++ s) ≡ (name, s)
  unfolding quote_windows_arg
  program-quote_windows_arg [] s unmarked solid behind = reads.in_quotes [] s refl
  program-quote_windows_arg (c ∷ name) s unmarked solid behind =
      elim (Bool-cases (any needs_quotes (c ∷ name))) [
        | inl needed ↦
            rw (needed, quoted_rest-name 0 c name unmarked solid, append_assoc name (quote ∷ []) s)
              (reads.in_quotes (c ∷ name) s unmarked)
        | inr free ↦ rw free (bare_word s behind (bare_name (c ∷ name) free))
      ]
    where
      bare_word :
          (s : Text)
          → starts space s ≡ true ⊎ (s ≡ [])
          → any (λ d. is_blank_char d || d == quote) (c ∷ name) ≡ false
          → p.program ((c ∷ name) ++ s) ≡ (c ∷ name, s)
      bare_word [] behind bare = rw (append-nil name) (reads.alone (c ∷ name) bare)
      bare_word (d ∷ s) (inl spaced) bare =
          let same : d ≡ space = (==_iff d space).0 spaced in rw same (reads.bare (c ∷ name) s bare)
      bare_word (d ∷ s) (inr none) bare = absurd (ground arith)

spaced_behind : (words : List Text) → starts space (spaced words) ≡ true ⊎ (spaced words ≡ [])
spaced_behind [] = inr refl
spaced_behind (word ∷ words) = inl refl

-- A program started with a command line that was built for it reads back its own name and
-- exactly the arguments that it was given, whatever characters they have, if the name has no
-- quote and does not end in a backslash, and the line is taken apart by the documented rules.
pub build_windows_command_line_round_trip :
    (p : ArgumentParsing)
    → ReadsProgram p
    → ReadsArguments p
    → (program : Text) (args : List Text) → any (λ c. c == quote) program ≡ false
    → ends_with_char backslash program ≡ false
    → ((p.program (build_windows_command_line program args)).0 ≡ program)
      × (p.arguments (p.program (build_windows_command_line program args)).1 ≡ args)
build_windows_command_line_round_trip p names reads program args unmarked solid =
    let words = map quote_windows_arg args in
    let read : p.program (build_windows_command_line program args) ≡ (program, spaced words) =
      ap p.program (build_windows_command_line-spaced program args)
      ∙ program-quote_windows_arg names program (spaced words) unmarked solid
          (spaced_behind words) in
    rw read (refl, arguments-spaced reads args)
