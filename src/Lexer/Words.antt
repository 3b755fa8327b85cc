-- ===== src/Lexer/Words.antt =====
-- lexer/words_numbers.go and the first half of lexer/scanner.go's scans: blanks, comments, names,
-- numbers and macro parameters.
use pawn_parser.Prelude.{
  ℕ, zero, suc, ◌+◌, Bool, true, false, not, ◌&&◌, ◌||◌, Option, none, some, leb, ◌==◌,
  if◌then◌else◌, slice,
}
use pawn_parser.Token.Kind.{Kind}
use pawn_parser.Token.Keyword.{lookup_keyword}
use pawn_parser.Token.Types.{Position}
use pawn_parser.Lexer.Scanner.{
  RawToken, Scanner, at_end, peek, peek_at, advance, advance_by, advance_while, rounds, emit,
}

abbrev within : ℕ → ℕ → ℕ → Bool
within lo hi c = leb lo c && leb c hi

unfoldable pub is_digit : ℕ → Bool
is_digit c = within b'0' b'9' c

unfoldable pub is_ident_start : ℕ → Bool
is_ident_start c = c == b'_' || c == b'@' || within b'a' b'z' c || within b'A' b'Z' c

unfoldable pub is_ident_char : ℕ → Bool
unfolding is_ident_start is_digit
is_ident_char c = is_ident_start c || is_digit c

unfoldable pub is_macro_param_char : ℕ → Bool
unfolding is_digit
is_macro_param_char c = is_digit c || c == b'%'

unfoldable pub is_hex_digit : ℕ → Bool
unfolding is_digit
is_hex_digit c = is_digit c || within b'a' b'f' c || within b'A' b'F' c

unfoldable pub is_binary_digit : ℕ → Bool
is_binary_digit c = c == b'0' || c == b'1'

unfoldable pub is_blank : ℕ → Bool
is_blank c = c == b' ' || c == b'\t' || c == b'\r'

unfoldable pub scan_whitespace : Position → Scanner → RawToken × Scanner
unfolding is_blank advance_while
scan_whitespace start s =
    emit Kind.whitespace start (advance_while (rounds s) (λ t. is_blank (peek t)) s)

abbrev pub in_line_comment : Scanner → Bool
in_line_comment t = not (at_end t) && not (peek t == b'\n') && not (peek t == b'\r')

unfoldable pub scan_line_comment : Position → Scanner → RawToken × Scanner
unfolding advance advance_while
scan_line_comment start s =
    emit Kind.comment start (advance_while (rounds s) in_line_comment (advance (advance s)))

-- The loop of `scanBlockComment`: it stops at the end, or behind the closing mark.
unfoldable pub block_comment_loop : ℕ → Scanner → Scanner
unfolding advance
block_comment_loop zero s = s
block_comment_loop (suc fuel) s = elim (at_end s) [
  | true ↦ s
  | false ↦ elim (peek s == b'*' && peek_at s 1 == b'/') [
    | true ↦ advance (advance s)
    | false ↦ block_comment_loop fuel (advance s)
  ]
]

unfoldable pub scan_block_comment : Position → Scanner → RawToken × Scanner
unfolding advance block_comment_loop
scan_block_comment start s =
    emit Kind.comment start (block_comment_loop (rounds s + 1) (advance (advance s)))

unfoldable pub word_kind : Option Kind → Kind
word_kind (some kw) = kw
word_kind none = Kind.identifier

unfoldable pub scan_identifier : Position → Scanner → RawToken × Scanner
unfolding is_ident_char advance_while lookup_keyword word_kind
scan_identifier start s =
    let t = advance_while (rounds s) (λ t. is_ident_char (peek t)) s in
    emit (word_kind (lookup_keyword (slice s.src start.offset t.pos))) start t

unfoldable pub scan_macro_param : Position → Scanner → RawToken × Scanner
unfolding advance advance_while is_digit
scan_macro_param start s =
    let t = advance s in
    if peek t == b'%'
    then emit Kind.macro_param start (advance t)
    else emit Kind.macro_param start (advance_while (rounds t) (λ u. is_digit (peek u)) t)

abbrev pub separated : (ℕ → Bool) → Scanner → Bool
separated valid_digit t = valid_digit (peek t) || peek t == b'_' && valid_digit (peek_at t 1)

unfoldable pub scan_digits_with_separators : (ℕ → Bool) → Scanner → Scanner
unfolding advance_while
scan_digits_with_separators valid_digit s = advance_while (rounds s) (separated valid_digit) s

-- The fraction of `scanNumber`, and whether there is one.
unfoldable pub scan_fraction : Scanner → Bool × Scanner
unfolding is_digit advance scan_digits_with_separators
scan_fraction s =
    if peek s == b'.' && is_digit (peek_at s 1)
    then (true, scan_digits_with_separators is_digit (advance s))
    else (false, s)

-- `la`, the length of the exponent's mark and sign
abbrev pub exponent_mark : Scanner → ℕ
exponent_mark s = if peek_at s 1 == b'+' || peek_at s 1 == b'-' then 2 else 1

-- The exponent of `scanNumber`, and whether the number is now a float.
unfoldable pub scan_exponent : Bool × Scanner → Bool × Scanner
unfolding is_digit advance_by scan_digits_with_separators
scan_exponent (is_float, s) =
    if (peek s == b'e' || peek s == b'E') && is_digit (peek_at s (exponent_mark s))
    then (true, scan_digits_with_separators is_digit (advance_by (exponent_mark s) s))
    else (is_float, s)

abbrev pub number_token : Position → Bool × Scanner → RawToken × Scanner
number_token start (is_float, s) =
    emit (if is_float then Kind.float_literal else Kind.int_literal) start s

-- `0x` or `0b` and digits
abbrev pub scan_radix : (ℕ → Bool) → Position → Scanner → RawToken × Scanner
scan_radix valid_digit start s =
    emit Kind.int_literal start (scan_digits_with_separators valid_digit (advance (advance s)))

unfoldable pub scan_number : Position → Scanner → RawToken × Scanner
unfolding is_hex_digit is_binary_digit is_digit advance scan_digits_with_separators scan_fraction
    scan_exponent
scan_number start s =
    if peek s == b'0' && (peek_at s 1 == b'x' || peek_at s 1 == b'X')
    then scan_radix is_hex_digit start s
    else if peek s == b'0' && (peek_at s 1 == b'b' || peek_at s 1 == b'B')
    then scan_radix is_binary_digit start s
    else number_token start (scan_exponent (scan_fraction (scan_digits_with_separators is_digit s)))
