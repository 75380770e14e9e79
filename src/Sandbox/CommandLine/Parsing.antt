-- ===== src/Sandbox/CommandLine/Parsing.antt =====
-- How a Windows program takes its command line apart: the documented rules of
-- `CommandLineToArgvW` and of the C run-time, as far as src/sandbox/sandbox_utils.rs relies on
-- them. They are not code of the repository, so they are the laws of a parameter.
use foxhole.Prelude.{
  ℕ, suc, ◌*◌, ◌≡◌, Bool, true, false, not, ◌||◌, ◌&&◌, List, [], ◌∷◌, ◌++◌, ◌==◌, any, replicate,
  Text,
}
use foxhole.Sandbox.CommandLine.{backslash, quote, space}

-- The characters between arguments.
abbrev pub is_blank_char : ℕ → Bool
is_blank_char c = c == space || c == 9

abbrev pub starts : ℕ → Text → Bool
starts c [] = false
starts c (d ∷ s) = d == c

-- An argument of which `s` was just read, and the arguments after it.
abbrev pub prefixed : Text → Text × List Text → Text × List Text
prefixed s (arg, args) = (s ++ arg, args)

abbrev pub one_more : Text × List Text → List Text
one_more (arg, args) = arg ∷ args

pub record ArgumentParsing : Type 0 where
  -- the first word of a line, and the rest of the line
  pub program : Text → Text × Text
  -- the arguments of the rest of a line
  pub arguments : Text → List Text
  -- inside an argument, in or out of quotes: what it still gets, and the arguments after it
  pub within_argument : Bool → Text → Text × List Text

-- The program's name is the text in quotes, or the text before the first blank; a backslash
-- means nothing in it.
pub record ReadsProgram (p : ArgumentParsing) : Type 0 where
  pub in_quotes :
      (name s : Text)
      → any (λ c. c == quote) name ≡ false
      → p.program (quote ∷ (name ++ quote ∷ s)) ≡ (name, s)
  pub bare :
      (name s : Text)
      → any (λ c. is_blank_char c || c == quote) name ≡ false
      → p.program (name ++ space ∷ s) ≡ (name, space ∷ s)
  pub alone :
      (name : Text)
      → any (λ c. is_blank_char c || c == quote) name ≡ false
      → p.program name ≡ (name, [])

pub record ReadsArguments (p : ArgumentParsing) : Type 0 where
  pub none_left : p.arguments [] ≡ []
  pub skip : (c : ℕ) (s : Text) → is_blank_char c ≡ true → p.arguments (c ∷ s) ≡ p.arguments s
  pub start :
      (c : ℕ) (s : Text)
      → is_blank_char c ≡ false
      → p.arguments (c ∷ s) ≡ one_more (p.within_argument false (c ∷ s))
  pub end : (in_quotes : Bool) → p.within_argument in_quotes [] ≡ ([], [])
  -- A blank outside quotes ends the argument.
  pub gap :
      (c : ℕ) (s : Text)
      → is_blank_char c ≡ true
      → p.within_argument false (c ∷ s) ≡ ([], p.arguments s)
  pub literal :
      (in_quotes : Bool) (c : ℕ) (s : Text)
      → (c == backslash || c == quote) ≡ false
      → (is_blank_char c && not in_quotes) ≡ false
      → p.within_argument in_quotes (c ∷ s) ≡ prefixed (c ∷ []) (p.within_argument in_quotes s)
  -- Backslashes stand for themselves unless a quote follows them.
  pub slashes :
      (in_quotes : Bool) (n : ℕ) (s : Text)
      → starts backslash s ≡ false
      → starts quote s ≡ false
      → p.within_argument in_quotes (replicate n backslash ++ s)
        ≡ prefixed (replicate n backslash) (p.within_argument in_quotes s)
  -- After an even number of backslashes a quote opens or closes; a closing quote with another
  -- quote behind it is left open.
  pub even :
      (in_quotes : Bool) (n : ℕ) (s : Text)
      → (in_quotes && starts quote s) ≡ false
      → p.within_argument in_quotes (replicate (n * 2) backslash ++ quote ∷ s)
        ≡ prefixed (replicate n backslash) (p.within_argument (not in_quotes) s)
  -- After an odd number it is a character of the argument.
  pub odd :
      (in_quotes : Bool) (n : ℕ) (s : Text)
      → p.within_argument in_quotes (replicate (suc (n * 2)) backslash ++ quote ∷ s)
        ≡ prefixed (replicate n backslash ++ quote ∷ []) (p.within_argument in_quotes s)
