-- ===== src/Sandbox/CommandLine/Arguments.antt =====
-- The arguments of a command line, read back behind the program.
use foxhole.Prelude.{
  ℕ, zero, suc, ◌*◌, ◌≡◌, refl, sym, ap, ◌∙◌, inl, inr, Bool, true, false, not, ◌&&◌, List, [], ◌∷◌,
  ◌++◌, map, ◌==◌, any, replicate, Text, Bool-cases, ==_iff, arith,
}
use mathlib.Core.List.{append-nil, append_assoc}
use foxhole.Sandbox.CommandLine.{
  backslash, quote, space, is_white, needs_quotes, quoted_rest, quote_windows_arg, join_spaced,
  build_windows_command_line,
}
use foxhole.Sandbox.CommandLine.Parsing.{ArgumentParsing, ReadsArguments, is_blank_char, starts}

-- The words behind the first of a line.
abbrev pub spaced : List Text → Text
spaced [] = []
spaced (s ∷ rest) = space ∷ (s ++ spaced rest)

join_spaced-cons : (s : Text) (rest : List Text) → join_spaced (s ∷ rest) ≡ s ++ spaced rest
unfolding join_spaced
join_spaced-cons s [] = sym (append-nil s)
join_spaced-cons s (t ∷ rest) = ap (λ l. s ++ space ∷ l) (join_spaced-cons t rest)

pub build_windows_command_line-spaced :
    (program : Text) (args : List Text)
    → build_windows_command_line program args
      ≡ quote_windows_arg program ++ spaced (map quote_windows_arg args)
unfolding build_windows_command_line
build_windows_command_line-spaced program args =
    join_spaced-cons (quote_windows_arg program) (map quote_windows_arg args)

-- A space or a tab is whitespace.
pub is_white-is_blank_char : (c : ℕ) → is_white c ≡ false → is_blank_char c ≡ false
unfolding is_white
is_white-is_blank_char c dark = ground arith

pub replicate_snoc :
    (n : ℕ) (s : Text) → replicate n backslash ++ backslash ∷ s ≡ replicate (suc n) backslash ++ s
replicate_snoc zero s = refl
replicate_snoc (suc n) s = ap (λ l. backslash ∷ l) (replicate_snoc n s)

module _ {p : ArgumentParsing} (reads : ReadsArguments p) where
  -- What stands behind an argument that is complete.
  pub record Ends (s : Text) (args : List Text) : Type 0 where
    pub closed : p.within_argument false s ≡ ([], args)
    pub unquoted : starts quote s ≡ false
    pub unslashed : starts backslash s ≡ false

  -- Backslashes before another character stand for themselves, and so does it.
  slashes-literal :
      (in_quotes : Bool) (n c : ℕ) (s : Text) {arg : Text} {args : List Text}
      → (c == backslash) ≡ false
      → (c == quote) ≡ false
      → (is_blank_char c && not in_quotes) ≡ false
      → p.within_argument in_quotes s ≡ (arg, args)
      → p.within_argument in_quotes (replicate n backslash ++ c ∷ s)
        ≡ (replicate n backslash ++ c ∷ arg, args)
  slashes-literal in_quotes n c s other marked inner read =
      reads.slashes in_quotes n (c ∷ s) other marked
      ∙ rw (reads.literal in_quotes c s (ground arith) inner, read) refl

  -- An argument that needed no quotes, after `n` of its backslashes.
  plain_argument :
      (n : ℕ) (arg s : Text) {args : List Text}
      → any needs_quotes arg ≡ false
      → Ends s args
      → p.within_argument false (replicate n backslash ++ (arg ++ s))
        ≡ (replicate n backslash ++ arg, args)
  plain_argument n [] s free ends =
      reads.slashes false n s ends.unslashed ends.unquoted ∙ rw ends.closed refl
  plain_argument n (c ∷ arg) s free ends = elim (Bool-cases (c == backslash)) [
    | inl slash ↦
        let same : c ≡ backslash = (==_iff c backslash).0 slash in
        rw (same, replicate_snoc n (arg ++ s), replicate_snoc n arg)
          (plain_argument (suc n) arg s (ground arith) ends)
    | inr other ↦
        slashes-literal false n c (arg ++ s) other (ground arith)
          (ground (arith, is_white-is_blank_char c)) (plain_argument zero arg s (ground arith) ends)
  ]

  -- The rest of a quoted argument, with `n` backslashes pending.
  quoted_argument :
      (n : ℕ) (arg s : Text) {args : List Text}
      → Ends s args
      → p.within_argument true (quoted_rest n arg ++ s) ≡ (replicate n backslash ++ arg, args)
  unfolding quoted_rest
  quoted_argument n [] s ends =
      rw (append_assoc (replicate (n * 2) backslash) (quote ∷ []) s)
        (reads.even true n s ends.unquoted ∙ rw ends.closed refl)
  quoted_argument n (c ∷ arg) s ends = elim (Bool-cases (c == backslash)) [
    | inl slash ↦
        let same : c ≡ backslash = (==_iff c backslash).0 slash in
        rw slash (quoted_argument (suc n) arg s ends ∙ rw (same, replicate_snoc n arg) refl)
    | inr other ↦ elim (Bool-cases (c == quote)) [
      | inl mark ↦
          let same : c ≡ quote = (==_iff c quote).0 mark in
          rw
            (
              other,
              mark,
              append_assoc (replicate (suc (n * 2)) backslash) (quote ∷ quoted_rest 0 arg) s,
            )
            (reads.odd true n (quoted_rest 0 arg ++ s)
              ∙ rw
                  (
                    quoted_argument 0 arg s ends,
                    append_assoc (replicate n backslash) (quote ∷ []) arg,
                    same,
                  )
                  refl)
      | inr unmarked ↦
          rw (other, unmarked, append_assoc (replicate n backslash) (c ∷ quoted_rest 0 arg) s)
            (slashes-literal true n c (quoted_rest 0 arg ++ s) other unmarked (ground arith)
              (quoted_argument 0 arg s ends))
    ]
  ]

  -- An argument as it is written, whichever way.
  written_argument :
      (arg s : Text) {args : List Text}
      → Ends s args
      → p.within_argument false (quote_windows_arg arg ++ s) ≡ (arg, args)
  unfolding quote_windows_arg quoted_rest
  written_argument [] s ends =
      reads.even false 0 (quote ∷ s) refl ∙ rw (quoted_argument 0 [] s ends) refl
  written_argument (c ∷ arg) s ends = elim (Bool-cases (any needs_quotes (c ∷ arg))) [
    | inl needed ↦ rw needed (
        reads.even false 0 (quoted_rest 0 (c ∷ arg) ++ s) refl
        ∙ rw (quoted_argument 0 (c ∷ arg) s ends) refl)
    | inr free ↦ rw free (plain_argument 0 (c ∷ arg) s free ends)
  ]

  -- No argument as it is written begins with a blank.
  quote_windows_arg_starts :
      (arg s : Text)
      → (c : ℕ) × (rest : Text) × (quote_windows_arg arg ++ s ≡ c ∷ rest)
        × (is_blank_char c ≡ false)
  unfolding quote_windows_arg
  quote_windows_arg_starts [] s = (quote, quote ∷ s, refl, refl)
  quote_windows_arg_starts (c ∷ arg) s = elim (Bool-cases (any needs_quotes (c ∷ arg))) [
    | inl needed ↦ (quote, quoted_rest 0 (c ∷ arg) ++ s, rw needed refl, refl)
    | inr free ↦ (c, arg ++ s, rw free refl, is_white-is_blank_char c (ground arith))
  ]

  arguments-quote_windows_arg :
      (arg s : Text) {args : List Text}
      → Ends s args
      → p.arguments (quote_windows_arg arg ++ s) ≡ arg ∷ args
  arguments-quote_windows_arg arg s ends =
      let (c, rest, same, dark) = quote_windows_arg_starts arg s in
      rw same (reads.start c rest dark ∙ rw (← same, written_argument arg s ends) refl)

  spaced-Ends :
      (words : List Text) {args : List Text}
      → p.arguments (spaced words) ≡ args
      → Ends (spaced words) args
  spaced-Ends [] read = record {
    closed = reads.end false ∙ ap (λ l. ([], l)) (sym reads.none_left ∙ read);
    unquoted = refl;
    unslashed = refl;
  }
  spaced-Ends (word ∷ words) read = record {
    closed =
        reads.gap space (word ++ spaced words) refl
        ∙ ap (λ l. ([], l)) (sym (reads.skip space (word ++ spaced words) refl) ∙ read);
    unquoted = refl;
    unslashed = refl;
  }

  pub arguments-spaced :
      (args : List Text) → p.arguments (spaced (map quote_windows_arg args)) ≡ args
  arguments-spaced [] = reads.none_left
  arguments-spaced (arg ∷ args) =
      reads.skip space (quote_windows_arg arg ++ spaced (map quote_windows_arg args)) refl
      ∙ arguments-quote_windows_arg arg (spaced (map quote_windows_arg args))
          (spaced-Ends (map quote_windows_arg args) (arguments-spaced args))
