-- ===== src/Lexer/Scans/Numbers.antt =====
-- `scanNumber` and `scanDigitsWithSeparators` of lexer/words_numbers.go take what they report.
use pawn_parser.Prelude.{
  ℕ, zero, suc, ◌<◌, ◌≡◌, refl, Bool, true, false, arith, length, ◌==◌, ◌&&◌, ◌||◌, if_cases, inl,
  inr, ◌⊎◌,
}
use pawn_parser.Token.Types.{Position}
use pawn_parser.Lexer.Scanner.{Scanner, peek, peek_at, advance, advance_while, rounds}
use pawn_parser.Lexer.Moves.{
  Moves, stay, move, Moves-trans, peek_pos, peek_at_pos, advance_by-Moves, advance_while-Moves,
  Advances, Advances-first, Advances-then, advance_twice-Advances, advance_while-Advances,
}
use pawn_parser.Lexer.Words.{
  is_digit, is_hex_digit, is_binary_digit, separated, scan_digits_with_separators, scan_fraction,
  scan_exponent, exponent_mark, scan_number,
}
use pawn_parser.Lexer.Scans.{Scans, emit-Scans, digit_pos, hex_digit_pos, binary_digit_pos}

-- Digits with separators, for a test that no digit 0 passes.
module _ (valid : ℕ → Bool) (valid_pos : (c : ℕ) → valid c ≡ true → 0 < c) where
  separated_looks : (s : Scanner) → separated valid s ≡ true → s.pos < length s.src
  separated_looks s h = peek_pos s (ground (arith, valid_pos (peek s)))

  pub scan_digits-Moves : (s : Scanner) → Moves s (scan_digits_with_separators valid s)
  unfolding scan_digits_with_separators
  scan_digits-Moves s = advance_while-Moves (separated valid) separated_looks (rounds s) s

  pub scan_digits-Advances :
      (s : Scanner) → valid (peek s) ≡ true → Advances s (scan_digits_with_separators valid s)
  unfolding scan_digits_with_separators
  scan_digits-Advances s h =
      advance_while-Advances (separated valid) separated_looks s (ground arith)

-- In front of a point there is no digit to take.
no_digits : (s : Scanner) → peek s ≡ b'.' → scan_digits_with_separators is_digit s ≡ s
unfolding scan_digits_with_separators is_digit
no_digits s h = go (rounds s)
  where
    go : (fuel : ℕ) → advance_while fuel (separated is_digit) s ≡ s
    go zero = refl
    go (suc fuel) = let e : separated is_digit s ≡ false = ground arith in rw (e, advance_while)

scan_fraction-Moves : (s : Scanner) → Moves s (scan_fraction s).1
unfolding scan_fraction
scan_fraction-Moves s =
    if_cases (λ (r : Bool × Scanner). Moves s r.1) (peek s == b'.' && is_digit (peek_at s 1)) _ _
      (λ e.
        Moves-trans (move stay (peek_pos s (ground arith)))
          (scan_digits-Moves is_digit digit_pos (advance s)))
      (λ e. stay)

-- With a fraction mark in front of a digit there is progress.
scan_fraction-Advances :
    (s : Scanner) → peek s ≡ b'.' → is_digit (peek_at s 1) ≡ true → Advances s (scan_fraction s).1
unfolding scan_fraction
scan_fraction-Advances s h d =
    if_cases (λ (r : Bool × Scanner). Advances s r.1) (peek s == b'.' && is_digit (peek_at s 1)) _ _
      (λ e.
        Advances-first (peek_pos s (omega arith))
          (scan_digits-Moves is_digit digit_pos (advance s)))
      (λ e. absurd (ground arith))

scan_exponent-Moves : (r : Bool × Scanner) → Moves r.1 (scan_exponent r).1
unfolding scan_exponent
scan_exponent-Moves (b, s) =
    if_cases (λ (r : Bool × Scanner). Moves s r.1)
      ((peek s == b'e' || peek s == b'E') && is_digit (peek_at s (exponent_mark s))) _ _
      (λ e.
        Moves-trans
          (advance_by-Moves (exponent_mark s) s
            (omega (arith, peek_at_pos s (exponent_mark s) (digit_pos _ (ground arith)))))
          (scan_digits-Moves is_digit digit_pos _))
      (λ e. stay)

-- The decimal digits before the point, and what follows them.
decimal-Advances :
    (s : Scanner)
    → (is_digit (peek s) ≡ true) ⊎ ((peek s ≡ b'.') × (is_digit (peek_at s 1) ≡ true))
    → Advances s (scan_exponent (scan_fraction (scan_digits_with_separators is_digit s))).1
decimal-Advances s (inl d) =
    Advances-then (scan_digits-Advances is_digit digit_pos s d)
      (Moves-trans (scan_fraction-Moves _) (scan_exponent-Moves _))
decimal-Advances s (inr (dot, d)) =
    rw (no_digits s dot)
      (Advances-then (scan_fraction-Advances s dot d) (scan_exponent-Moves (scan_fraction s)))

-- A number begins with a digit, or with a point and a digit.
pub scan_number-Scans :
    (start : Position) (s : Scanner)
    → (is_digit (peek s) ≡ true) ⊎ ((peek s ≡ b'.') × (is_digit (peek_at s 1) ≡ true))
    → Scans s start (scan_number start s)
unfolding scan_number
scan_number-Scans start s h =
    if_cases (Scans s start) (peek s == b'0' && (peek_at s 1 == b'x' || peek_at s 1 == b'X')) _ _
      (λ e. emit-Scans _ start (
        Advances-then (advance_twice-Advances s (peek_at_pos s 1 (ground arith)))
          (scan_digits-Moves is_hex_digit hex_digit_pos _)))
      (λ _.
        if_cases (Scans s start) (peek s == b'0' && (peek_at s 1 == b'b' || peek_at s 1 == b'B')) _
          _
          (λ e. emit-Scans _ start (
            Advances-then (advance_twice-Advances s (peek_at_pos s 1 (ground arith)))
              (scan_digits-Moves is_binary_digit binary_digit_pos _)))
          (λ _. emit-Scans _ start (decimal-Advances s h)))
