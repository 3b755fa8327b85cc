-- ===== src/Lexer/Raw.antt =====
-- lexer/scanner.go, `nextRaw`, and lexer/lexer.go, `RawTokens`.
pub mod Tiling
pub mod Text
use pawn_parser.Prelude.{
  ℕ, zero, suc, ◌+◌, Bool, true, false, ◌&&◌, ◌||◌, List, [], ◌∷◌, Bytes, ◌==◌, if◌then◌else◌,
  length, map,
}
use pawn_parser.Token.Kind.{Kind, kind_eq}
use pawn_parser.Token.Types.{Position, Token}
use pawn_parser.Lexer.Scanner.{
  RawToken, Scanner, new_scanner, here, at_end, peek, peek_at, advance, emit,
}
use pawn_parser.Lexer.Words.{
  is_digit, is_ident_start, is_macro_param_char, is_blank, scan_whitespace, scan_line_comment,
  scan_block_comment, scan_identifier, scan_number, scan_macro_param,
}
use pawn_parser.Lexer.Literals.{scan_string, scan_char}
use pawn_parser.Lexer.Operators.{scan_operator}

-- The test of the case for a backslash before a line end.
unfoldable pub at_continuation : Scanner → Bool
at_continuation s =
    peek s == b'\\' && (peek_at s 1 == b'\n' || peek_at s 1 == b'\r' && peek_at s 2 == b'\n')

abbrev pub advance_if : ℕ → Scanner → Scanner
advance_if c s = if peek s == c then advance s else s

-- `\` and the line end behind it
unfoldable pub scan_continuation : Position → Scanner → RawToken × Scanner
unfolding advance
scan_continuation start s =
    emit Kind.line_continuation start (advance_if b'\n' (advance_if b'\r' (advance s)))

-- The switch of `nextRaw`, at a byte of the source.
unfoldable pub dispatch : Position → Scanner → RawToken × Scanner
unfolding at_continuation scan_continuation advance is_digit is_ident_start is_macro_param_char
    is_blank scan_whitespace scan_line_comment scan_block_comment scan_identifier scan_number
    scan_macro_param scan_string scan_char scan_operator
dispatch start s =
    let c = peek s in
    if is_blank c
    then scan_whitespace start s
    else if c == b'\n'
    then emit Kind.newline start (advance s)
    else if at_continuation s
    then scan_continuation start s
    else if c == b'/' && peek_at s 1 == b'/'
    then scan_line_comment start s
    else if c == b'/' && peek_at s 1 == b'*'
    then scan_block_comment start s
    else if is_ident_start c
    then scan_identifier start s
    else if is_digit c
    then scan_number start s
    else if c == b'.' && is_digit (peek_at s 1)
    then scan_number start s
    else if c == b'"'
    then scan_string start s
    else if c == b'\''
    then scan_char start s
    else if c == b'!' && peek_at s 1 == b'"'
    then scan_string start (advance s)
    else if c == b'%' && is_macro_param_char (peek_at s 1)
    then scan_macro_param start s
    else scan_operator start s

unfoldable pub next_raw : Scanner → RawToken × Scanner
unfolding dispatch
next_raw s = if at_end s then emit Kind.eof (here s) s else dispatch (here s) s

-- The loop of `RawTokens`, on fuel: it stops behind the end-of-file token.
unfoldable pub raw_loop : ℕ → Scanner → List RawToken
unfolding next_raw
raw_loop zero s = []
raw_loop (suc fuel) s =
    let (r, t) = next_raw s in
    r ∷ elim (kind_eq r.kind Kind.eof) [ true ↦ [] | false ↦ raw_loop fuel t ]

-- One round for each byte and one for the end of the file.
unfoldable pub scan_all : Bytes → List RawToken
unfolding raw_loop kind_eq
scan_all src = raw_loop (length src + 1) (new_scanner src)

-- A raw token as a `Token` with no trivia.
abbrev pub bare_token : RawToken → Token
bare_token r = record {
  kind = r.kind;
  start = r.start;
  end = r.end;
  leading_trivia = [];
  trailing_trivia = [];
  origin = [];
}

-- `RawTokens`
unfoldable pub raw_tokens : Bytes → List Token
unfolding scan_all
raw_tokens src = map bare_token (scan_all src)
