-- ===== src/Lexer/Scans/Next.antt =====
-- `nextRaw` takes at least one byte, unless it reports the end of the file at the end.
use pawn_parser.Prelude.{ℕ, ◌+◌, ◌<◌, ◌≡◌, true, arith, length, ◌==◌, ◌&&◌, if_cases, inl, inr}
use pawn_parser.Token.Kind.{Kind}
use pawn_parser.Token.Types.{Position}
use pawn_parser.Lexer.Scanner.{RawToken, Scanner, here, at_end, peek, peek_at, advance}
use pawn_parser.Lexer.Moves.{
  Moves, stay, move, peek_pos, peek_at_pos, Advances-first, advance-Advances, Moves-trans,
  Advances-trans,
}
use pawn_parser.Lexer.Words.{is_digit, is_ident_start, is_ident_char, is_blank, is_macro_param_char}
use pawn_parser.Lexer.Raw.{at_continuation, advance_if, scan_continuation, dispatch, next_raw}
use pawn_parser.Lexer.Scans.{
  Scans, emit-Scans, scan_whitespace-Scans, scan_line_comment-Scans, scan_block_comment-Scans,
  scan_identifier-Scans, scan_macro_param-Scans,
}
use pawn_parser.Lexer.Scans.Numbers.{scan_number-Scans}
use pawn_parser.Lexer.Scans.Literals.{scan_string-Scans, scan_char-Scans, scan_operator-Scans}

advance_if-Moves : (c : ℕ) (s : Scanner) → 0 < c → Moves s (advance_if c s)
advance_if-Moves c s h =
    if_cases (Moves s) (peek s == c) _ _ (λ e. move stay (peek_pos s (ground arith))) (λ e. stay)

scan_continuation-Scans :
    (start : Position) (s : Scanner)
    → s.pos < length s.src
    → Scans s start (scan_continuation start s)
unfolding scan_continuation
scan_continuation-Scans start s h = emit-Scans Kind.line_continuation start (
    Advances-first h (
      Moves-trans (advance_if-Moves b'\r' (advance s) (omega arith))
        (advance_if-Moves b'\n' (advance_if b'\r' (advance s)) (omega arith))))

ident_start_char : (c : ℕ) → is_ident_start c ≡ true → is_ident_char c ≡ true
unfolding is_ident_char
ident_start_char c h = ground arith

-- A scan that begins one byte further on.
Scans-first :
    {s : Scanner} {start : Position} {r : RawToken × Scanner}
    → s.pos < length s.src
    → Scans (advance s) start r
    → Scans s start r
Scans-first h a = record {
  advances = Advances-trans (move stay h) a.advances;
  starts = a.starts;
  ends = a.ends;
}

dispatch-Scans :
    (start : Position) (s : Scanner) → s.pos < length s.src → Scans s start (dispatch start s)
unfolding dispatch
dispatch-Scans start s h = if_cases P (is_blank (peek s)) _ _ (scan_whitespace-Scans start s) (λ _.
    if_cases P (peek s == b'\n') _ _ (λ _. emit-Scans Kind.newline start (advance-Advances s h))
      (λ _.
        if_cases P (at_continuation s) _ _ (λ _. scan_continuation-Scans start s h)
          (λ _.
            if_cases P (peek s == b'/' && peek_at s 1 == b'/') _ _
              (λ e. scan_line_comment-Scans start s (second (ground arith)))
              (λ _.
                if_cases P (peek s == b'/' && peek_at s 1 == b'*') _ _
                  (λ e. scan_block_comment-Scans start s (second (ground arith)))
                  (λ _.
                    if_cases P (is_ident_start (peek s)) _ _
                      (λ e. scan_identifier-Scans start s (ident_start_char (peek s) e))
                      (λ _.
                        if_cases P (is_digit (peek s)) _ _ (λ e. scan_number-Scans start s (inl e))
                          (λ _.
                            if_cases P (peek s == b'.' && is_digit (peek_at s 1)) _ _
                              (λ e. scan_number-Scans start s (inr (ground arith, ground arith)))
                              (λ _.
                                if_cases P (peek s == b'"') _ _ (λ _. scan_string-Scans start s h)
                                  (λ _.
                                    if_cases P (peek s == b'\'') _ _
                                      (λ _. scan_char-Scans start s h)
                                      (λ _.
                                        if_cases P (peek s == b'!' && peek_at s 1 == b'"') _ _
                                          (λ e. Scans-first h (
                                            scan_string-Scans start (advance s)
                                              (peek_pos (advance s) (ground arith))))
                                          (λ _.
                                            if_cases P
                                              (peek s == b'%' && is_macro_param_char (peek_at s 1))
                                              _ _ (λ _. scan_macro_param-Scans start s h)
                                              (λ _. scan_operator-Scans start s h))))))))))))
  where
    P : RawToken × Scanner → Type 0
    P = Scans s start

    second : 0 < peek_at s 1 → s.pos + 1 < length s.src
    second = peek_at_pos s 1

-- At a byte of the source `nextRaw` takes at least one byte and advances only over bytes of the
-- source, and its token begins where the scanner stood and ends where it stands then.
pub next_raw-Scans : (s : Scanner) → s.pos < length s.src → Scans s (here s) (next_raw s)
unfolding next_raw
next_raw-Scans s h =
    if_cases (Scans s (here s)) (at_end s) _ _ (λ e. absurd (ground arith))
      (λ e. dispatch-Scans (here s) s h)
