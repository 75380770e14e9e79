-- ===== src/Sandbox/CommandLine/Splitter.antt =====
-- One splitter that follows the documented rules of `CommandLineToArgvW`: a state machine over
-- the line that keeps whether it is inside quotes and how many backslashes are pending.
use foxhole.Prelude.{
  ℕ, zero, suc, ◌+◌, ◌*◌, ◌/◌, ◌%◌, ◌≡◌, refl, sym, ap, ◌∙◌, Bool, true, false, not, ◌||◌, ◌&&◌,
  List, [], ◌∷◌, ◌++◌, ◌==◌, if◌then◌else◌, any, drop, replicate, Text, arith, Bool-cases, inl, inr,
}
use mathlib.Core.List.{append-nil, append_assoc}
use foxhole.Sandbox.CommandLine.{backslash, quote, space}
use foxhole.Sandbox.CommandLine.Parsing.{
  ArgumentParsing, ReadsProgram, ReadsArguments, is_blank_char, starts, prefixed, one_more,
}

-- One character of an argument, where `after` reads the rest of it and `others` are the
-- arguments behind a blank.
unfoldable pub step :
    (after : Bool → ℕ → Text × List Text) (others : List Text) (in_quotes : Bool) (n c : ℕ)
    → Text × List Text
step after others in_quotes n c =
    if c == backslash
    then after in_quotes (suc n)
    else if c == quote
    then if n % 2 == 0
      then prefixed (replicate (n / 2) backslash) (after (not in_quotes) 0)
      else prefixed (replicate (n / 2) backslash ++ quote ∷ []) (after in_quotes 0)
    else if is_blank_char c && not in_quotes
    then (replicate n backslash, others)
    else prefixed (replicate n backslash ++ c ∷ []) (after in_quotes 0)

unfoldable mutual
  pub read_argument : Bool → ℕ → Text → Text × List Text
  read_argument in_quotes n [] = (replicate n backslash, [])
  read_argument in_quotes n (c ∷ s) =
      step (λ q m. read_argument q m s) (read_arguments s) in_quotes n c

  pub read_arguments : Text → List Text
  read_arguments [] = []
  read_arguments (c ∷ s) =
      if is_blank_char c
      then read_arguments s
      else one_more (step (λ q m. read_argument q m s) (read_arguments s) false 0 c)

-- The text before the first character that `p` holds of, and the rest from there.
unfoldable pub break_at : (ℕ → Bool) → Text → Text × Text
break_at p [] = ([], [])
break_at p (c ∷ s) = let rest = break_at p s in if p c then ([], c ∷ s) else (c ∷ rest.0, rest.1)

unfoldable pub read_program : Text → Text × Text
read_program [] = ([], [])
read_program (c ∷ s) =
    if c == quote
    then (let (name, rest) = break_at (λ d. d == quote) s in (name, drop 1 rest))
    else break_at is_blank_char (c ∷ s)

abbrev pub splitter : ArgumentParsing
splitter = record {
  program = read_program;
  arguments = read_arguments;
  within_argument = λ in_quotes s. read_argument in_quotes 0 s;
}

-- Backslashes are counted.
read_argument-replicate :
    (in_quotes : Bool) (n k : ℕ) (s : Text)
    → read_argument in_quotes n (replicate k backslash ++ s) ≡ read_argument in_quotes (k + n) s
unfolding read_argument step
read_argument-replicate in_quotes n zero s = ap (λ m. read_argument in_quotes m s) (omega arith)
read_argument-replicate in_quotes n (suc k) s =
    read_argument-replicate in_quotes (suc n) k s
    ∙ ap (λ m. read_argument in_quotes m s) (omega arith)

-- Pending backslashes that no quote follows stand for themselves.
read_argument-pending :
    (in_quotes : Bool) (n : ℕ) (s : Text)
    → starts backslash s ≡ false
    → starts quote s ≡ false
    → read_argument in_quotes n s ≡ prefixed (replicate n backslash) (read_argument in_quotes 0 s)
unfolding read_argument step
read_argument-pending in_quotes n [] other unmarked =
    ap (λ l. (l, [])) (sym (append-nil (replicate n backslash)))
read_argument-pending in_quotes n (c ∷ s) other unmarked =
    elim (Bool-cases (is_blank_char c && not in_quotes)) [
      | inl gap ↦
          rw (other, unmarked, gap)
            (ap (λ l. (l, read_arguments s)) (sym (append-nil (replicate n backslash))))
      | inr inner ↦
          rw (other, unmarked, inner)
            (ap (λ l. (l, (read_argument in_quotes 0 s).1))
              (append_assoc (replicate n backslash) (c ∷ []) (read_argument in_quotes 0 s).0))
    ]

blank_plain : (c : ℕ) → is_blank_char c ≡ true → (c == backslash || c == quote) ≡ false
blank_plain c blank = ground arith

step-literal :
    (after : Bool → ℕ → Text × List Text) (others : List Text) (in_quotes : Bool) (n c : ℕ)
    → (c == backslash || c == quote) ≡ false
    → step after others in_quotes n c ≡ (
        if is_blank_char c && not in_quotes
        then (replicate n backslash, others)
        else prefixed (replicate n backslash ++ c ∷ []) (after in_quotes 0))
unfolding step
step-literal after others in_quotes n c other =
    let plain : (c == backslash) ≡ false = ground arith in
    let unmarked : (c == quote) ≡ false = ground arith in rw (plain, unmarked) refl

pub splitter-ReadsArguments : ReadsArguments splitter
unfolding read_argument read_arguments step
splitter-ReadsArguments = record {
  none_left = refl;
  skip = λ c s blank. rw blank refl;
  start = λ c s dark. rw dark refl;
  end = λ in_quotes. refl;
  gap = λ c s blank.
      step-literal (λ q m. read_argument q m s) (read_arguments s) false 0 c (blank_plain c blank)
      ∙ rw blank refl;
  literal = λ in_quotes c s other inner.
      step-literal (λ q m. read_argument q m s) (read_arguments s) in_quotes 0 c other
      ∙ rw inner refl;
  slashes = λ in_quotes n s other unmarked.
      read_argument-replicate in_quotes 0 n s
      ∙ ap (λ m. read_argument in_quotes m s) (omega arith)
      ∙ read_argument-pending in_quotes n s other unmarked;
  even = λ in_quotes n s closing.
      let all_paired : (n * 2 + 0) % 2 ≡ 0 = omega arith in
      let halved : (n * 2 + 0) / 2 ≡ n = omega arith in
      read_argument-replicate in_quotes 0 (n * 2) (quote ∷ s) ∙ rw (all_paired, halved) refl;
  odd = λ in_quotes n s.
      let one_left : (suc (n * 2) + 0) % 2 ≡ 1 = omega arith in
      let halved : (suc (n * 2) + 0) / 2 ≡ n = omega arith in
      read_argument-replicate in_quotes 0 (suc (n * 2)) (quote ∷ s) ∙ rw (one_left, halved) refl;
}

-- Nothing that `p` holds of: the break comes at what stands behind.
break_at-append :
    (p : ℕ → Bool) (name : Text) (c : ℕ) (s : Text)
    → any p name ≡ false
    → p c ≡ true
    → break_at p (name ++ c ∷ s) ≡ (name, c ∷ s)
unfolding break_at
break_at-append p [] c s clear met = rw met refl
break_at-append p (d ∷ name) c s clear met =
    let unmet : p d ≡ false = ground arith in
    rw (unmet, break_at-append p name c s (ground arith) met) refl

break_at_all : (p : ℕ → Bool) (name : Text) → any p name ≡ false → break_at p name ≡ (name, [])
unfolding break_at
break_at_all p [] clear = refl
break_at_all p (d ∷ name) clear =
    let unmet : p d ≡ false = ground arith in rw (unmet, break_at_all p name (ground arith)) refl

any_part :
    (name : Text)
    → any (λ c. is_blank_char c || c == quote) name ≡ false
    → any is_blank_char name ≡ false
any_part [] clear = refl
any_part (c ∷ name) clear = ground (arith, any_part name)

pub splitter-ReadsProgram : ReadsProgram splitter
unfolding read_program break_at
splitter-ReadsProgram = record {
  in_quotes = λ name s clear. rw (break_at-append (λ d. d == quote) name quote s clear refl) refl;
  bare = bare;
  alone = alone;
}
  where
    bare :
        (name s : Text)
        → any (λ c. is_blank_char c || c == quote) name ≡ false
        → read_program (name ++ space ∷ s) ≡ (name, space ∷ s)
    bare [] s clear = refl
    bare (c ∷ name) s clear =
        let unmarked : (c == quote) ≡ false = ground arith in
        rw unmarked
          (break_at-append is_blank_char (c ∷ name) space s (any_part (c ∷ name) clear) refl)

    alone :
        (name : Text)
        → any (λ c. is_blank_char c || c == quote) name ≡ false
        → read_program name ≡ (name, [])
    alone [] clear = refl
    alone (c ∷ name) clear =
        let unmarked : (c == quote) ≡ false = ground arith in
        rw unmarked (break_at_all is_blank_char (c ∷ name) (any_part (c ∷ name) clear))
