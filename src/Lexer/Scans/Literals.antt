-- ===== src/Lexer/Scans/Literals.antt =====
-- Literals and operators (lexer/literals_operators.go) take what they report.
use pawn_parser.Prelude.{
  Option, none, some, ℕ, zero, suc, ◌+◌, ◌≤◌, ◌<◌, ◌≡◌, refl, arith, length, ◌==◌, if_cases,
  Bool-cases, inl, inr,
}
use pawn_parser.Token.Kind.{Kind}
use pawn_parser.Token.Types.{Position}
use pawn_parser.Lexer.Scanner.{Scanner, at_end, peek, peek_at, advance, rounds}
use pawn_parser.Lexer.Moves.{
  Moves, stay, move, Moves-trans, peek_pos, peek_at_pos, advance_by-Moves, advance_by-pos,
  Advances-first, advance-Advances,
}
use pawn_parser.Lexer.Scans.{Scans, emit-Scans}
use pawn_parser.Lexer.Literals.{skip_escape, quoted_loop, scan_string, scan_char}
use pawn_parser.Lexer.Operators.{
  multi_operator_kind, single_operator_kind, single_operator, operator, scan_operator, consume_op,
}

skip_escape-Moves : (s : Scanner) → s.pos < length s.src → Moves s (skip_escape s)
unfolding skip_escape
skip_escape-Moves s h =
    if_cases (Moves s) (at_end (advance s)) _ _ (λ e. move stay h)
      (λ e. move (move stay h) (ground arith))

quoted_loop-Moves : (fuel quote : ℕ) (s : Scanner) → Moves s (quoted_loop fuel quote s).1
unfolding quoted_loop
quoted_loop-Moves zero quote s = stay
quoted_loop-Moves (suc fuel) quote s = elim (Bool-cases (at_end s)) [
  | inl e ↦ rw (e, quoted_loop) stay
  | inr e ↦ elim (Bool-cases (peek s == b'\\')) [
    | inl f ↦
        rw (e, f, quoted_loop)
          (Moves-trans (skip_escape-Moves s (ground arith))
            (quoted_loop-Moves fuel quote (skip_escape s)))
    | inr f ↦ elim (Bool-cases (peek s == quote)) [
      | inl g ↦ rw (e, f, g, quoted_loop) (move stay (ground arith))
      | inr g ↦ elim (Bool-cases (peek s == b'\n')) [
        | inl n ↦ rw (e, f, g, n, quoted_loop) stay
        | inr n ↦
            rw (e, f, g, n, quoted_loop)
              (Moves-trans (move stay (ground arith)) (quoted_loop-Moves fuel quote (advance s)))
      ]
    ]
  ]
]

pub scan_string-Scans :
    (start : Position) (s : Scanner) → s.pos < length s.src → Scans s start (scan_string start s)
unfolding scan_string
scan_string-Scans start s h =
    emit-Scans _ start (Advances-first h (quoted_loop-Moves (rounds s + 1) b'"' (advance s)))

pub scan_char-Scans :
    (start : Position) (s : Scanner) → s.pos < length s.src → Scans s start (scan_char start s)
unfolding scan_char
scan_char-Scans start s h =
    emit-Scans _ start (Advances-first h (quoted_loop-Moves (rounds s + 1) b'\'' (advance s)))

-- An operator of several bytes has none that is 0, so it lies within the source.
multi_operator_within :
    (s : Scanner) {n : ℕ} {kind : Kind}
    → multi_operator_kind (peek s) (peek_at s 1) (peek_at s 2) (peek_at s 3) ≡ some (n, kind)
    → (0 < n) × (s.pos + n ≤ length s.src)
unfolding multi_operator_kind
multi_operator_within s e =
    ground (arith, peek_pos s, peek_at_pos s 1, peek_at_pos s 2, peek_at_pos s 3)

single_operator-Scans :
    (start : Position) (o : Option Kind) (s : Scanner)
    → s.pos < length s.src
    → Scans s start (single_operator start o s)
unfolding single_operator
single_operator-Scans start (some kind) s h = emit-Scans _ start (advance-Advances s h)
single_operator-Scans start none s h = emit-Scans _ start (advance-Advances s h)

operator-Scans :
    (start : Position) (o : Option (ℕ × Kind)) (s : Scanner)
    → s.pos < length s.src
    → ((n : ℕ) (kind : Kind) → o ≡ some (n, kind) → (0 < n) × (s.pos + n ≤ length s.src))
    → Scans s start (operator start o s)
unfolding operator consume_op
operator-Scans start none s h fits = single_operator-Scans start (single_operator_kind (peek s)) s h
operator-Scans start (some (n, kind)) s h fits =
    let (some_bytes, within) = fits n kind refl in
    emit-Scans kind start
      (record { moves = advance_by-Moves n s within; progress = omega (arith, advance_by-pos n s) })

pub scan_operator-Scans :
    (start : Position) (s : Scanner) → s.pos < length s.src → Scans s start (scan_operator start s)
unfolding scan_operator
scan_operator-Scans start s h = operator-Scans start _ s h (λ n kind e. multi_operator_within s e)
