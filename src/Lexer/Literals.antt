-- ===== src/Lexer/Literals.antt =====
-- lexer/literals_operators.go: string and character literals.
use pawn_parser.Prelude.{
  ℕ, zero, suc, ◌+◌, Bool, true, false, ◌&&◌, ltb, ◌==◌, if◌then◌else◌, length, get_or,
}
use pawn_parser.Token.Kind.{Kind}
use pawn_parser.Token.Types.{Position}
use pawn_parser.Lexer.Scanner.{RawToken, Scanner, at_end, peek, advance, rounds, emit}

-- A backslash and the byte behind it, if there is one.
unfoldable pub skip_escape : Scanner → Scanner
unfolding advance
skip_escape s = if at_end (advance s) then advance s else advance (advance s)

-- The loop of `scanString` and of `scanChar`, which differ in the mark that closes them: whether
-- the literal was closed, and where the scanner stands then.
unfoldable pub quoted_loop : ℕ → ℕ → Scanner → Bool × Scanner
unfolding advance skip_escape
quoted_loop zero quote s = (false, s)
quoted_loop (suc fuel) quote s = elim (at_end s) [
  | true ↦ (false, s)
  | false ↦ elim (peek s == b'\\') [
    | true ↦ quoted_loop fuel quote (skip_escape s)
    | false ↦ elim (peek s == quote) [
      | true ↦ (true, advance s)
      | false ↦ elim (peek s == b'\n') [
        | true ↦ (false, s)
        | false ↦ quoted_loop fuel quote (advance s)
      ]
    ]
  ]
]

abbrev pub quoted_token : Kind → Position → Bool × Scanner → RawToken × Scanner
quoted_token kind start (closed, s) = emit (if closed then kind else Kind.unknown) start s

-- The kind of a closed string: packed if it was opened by `!"`.
unfoldable pub string_kind : Position → Scanner → Kind
string_kind start s =
    if ltb start.offset (length s.src) && get_or s.src start.offset 0 == b'!'
    then Kind.packed_string
    else Kind.string_literal

unfoldable pub scan_string : Position → Scanner → RawToken × Scanner
unfolding advance quoted_loop string_kind
scan_string start s =
    quoted_token (string_kind start s) start (quoted_loop (rounds s + 1) b'"' (advance s))

unfoldable pub scan_char : Position → Scanner → RawToken × Scanner
unfolding advance quoted_loop
scan_char start s =
    quoted_token Kind.char_literal start (quoted_loop (rounds s + 1) b'\'' (advance s))
