-- ===== src/Lexer/Scans.antt =====
-- Every scan of the lexer takes at least one byte and reports where it began and ended.
pub mod Numbers
pub mod Literals
pub mod Next
pub mod Kinds
use pawn_parser.Prelude.{
  ℕ, zero, suc, ◌+◌, ◌≤◌, ◌<◌, ◌≡◌, refl, Bool, true, false, Bytes, arith, length, ◌==◌, ◌&&◌, ◌||◌,
  get_or, if◌then◌else◌, if_cases, Bool-cases, inl, inr, ◌⊎◌,
}
use pawn_parser.Token.Kind.{Kind}
use pawn_parser.Token.Types.{Position}
use pawn_parser.Lexer.Scanner.{
  RawToken, Scanner, here, at_end, peek, peek_at, advance, advance_by, advance_while, rounds, emit,
}
use pawn_parser.Lexer.Moves.{
  Moves, stay, move, Moves-trans, peek_pos, peek_at_pos, peek-advance, advance-pos, advance-src,
  advance_by-Moves, advance_by-pos, advance_while-Moves, Advances, Advances-first, Advances-trans,
  Advances-then, advance-Advances, advance_twice-Advances, advance_while-Advances,
}
use pawn_parser.Lexer.Words.{
  is_digit, is_hex_digit, is_binary_digit, is_ident_char, is_blank, in_line_comment,
  block_comment_loop, separated, scan_whitespace, scan_line_comment, scan_block_comment,
  scan_identifier, scan_macro_param, scan_digits_with_separators, scan_fraction, scan_exponent,
  exponent_mark, number_token, scan_number,
}

pub record Scans (s : Scanner) (start : Position) (r : RawToken × Scanner) : Type 0 where
  pub advances : Advances s r.1
  pub starts : r.0.start ≡ start
  pub ends : r.0.end ≡ here r.1

pub emit-Scans :
    (kind : Kind) (start : Position) {s t : Scanner}
    → Advances s t
    → Scans s start (emit kind start t)
emit-Scans kind start a = record { advances = a; starts = refl; ends = refl }

blank_pos : (c : ℕ) → is_blank c ≡ true → 0 < c
unfolding is_blank
blank_pos c h = ground arith

pub digit_pos : (c : ℕ) → is_digit c ≡ true → 0 < c
unfolding is_digit
digit_pos c h = ground arith

pub hex_digit_pos : (c : ℕ) → is_hex_digit c ≡ true → 0 < c
unfolding is_hex_digit
hex_digit_pos c h = ground arith

pub binary_digit_pos : (c : ℕ) → is_binary_digit c ≡ true → 0 < c
unfolding is_binary_digit
binary_digit_pos c h = ground arith

ident_char_pos : (c : ℕ) → is_ident_char c ≡ true → 0 < c
unfolding is_ident_char
ident_char_pos c h = ground arith

line_comment_looks : (s : Scanner) → in_line_comment s ≡ true → s.pos < length s.src
line_comment_looks s h = ground arith

pub scan_whitespace-Scans :
    (start : Position) (s : Scanner)
    → is_blank (peek s) ≡ true
    → Scans s start (scan_whitespace start s)
unfolding scan_whitespace
scan_whitespace-Scans start s h =
    emit-Scans _ start (
      advance_while-Advances (λ t. is_blank (peek t)) (λ t e. peek_pos t (blank_pos (peek t) e)) s
        h)

pub scan_line_comment-Scans :
    (start : Position) (s : Scanner)
    → s.pos + 1 < length s.src
    → Scans s start (scan_line_comment start s)
unfolding scan_line_comment
scan_line_comment-Scans start s h = emit-Scans _ start (
    Advances-then (advance_twice-Advances s h)
      (advance_while-Moves in_line_comment line_comment_looks (rounds s) (advance (advance s))))

block_comment_loop-Moves : (fuel : ℕ) (s : Scanner) → Moves s (block_comment_loop fuel s)
unfolding block_comment_loop
block_comment_loop-Moves zero s = stay
block_comment_loop-Moves (suc fuel) s = elim (Bool-cases (at_end s)) [
  | inl e ↦ rw (e, block_comment_loop) stay
  | inr e ↦ elim (Bool-cases (peek s == b'*' && peek_at s 1 == b'/')) [
    | inl c ↦
        rw (e, c, block_comment_loop)
          ((advance_twice-Advances s (peek_at_pos s 1 (ground arith))).moves)
    | inr c ↦
        rw (e, c, block_comment_loop)
          (Moves-trans (move stay (ground arith)) (block_comment_loop-Moves fuel (advance s)))
  ]
]

pub scan_block_comment-Scans :
    (start : Position) (s : Scanner)
    → s.pos + 1 < length s.src
    → Scans s start (scan_block_comment start s)
unfolding scan_block_comment
scan_block_comment-Scans start s h =
    emit-Scans _ start
      (Advances-then (advance_twice-Advances s h) (block_comment_loop-Moves (rounds s + 1) _))

pub scan_identifier-Scans :
    (start : Position) (s : Scanner)
    → is_ident_char (peek s) ≡ true
    → Scans s start (scan_identifier start s)
unfolding scan_identifier
scan_identifier-Scans start s h = emit-Scans _ start (
    advance_while-Advances (λ t. is_ident_char (peek t))
      (λ t e. peek_pos t (ident_char_pos (peek t) e)) s h)

pub scan_macro_param-Scans :
    (start : Position) (s : Scanner)
    → s.pos < length s.src
    → Scans s start (scan_macro_param start s)
unfolding scan_macro_param
scan_macro_param-Scans start s h =
    if_cases (Scans s start) (peek (advance s) == b'%') _ _
      (λ e. emit-Scans _ start (Advances-first h (move stay (peek_pos (advance s) (ground arith)))))
      (λ e. emit-Scans _ start (
        Advances-first h (
          advance_while-Moves (λ t. is_digit (peek t)) (λ t d. peek_pos t (digit_pos (peek t) d)) _
            (advance s))))
