-- ===== src/Lexer/Operators.antt =====
-- lexer/literals_operators.go: operators and punctuation. A result `(n, kind, true)` is `some (n, kind)`.
pub mod Longest
pub mod Reach
pub mod Maximal
pub mod Scan
use pawn_parser.Prelude.{ℕ, ◌&&◌, ◌||◌, Option, none, some, ◌==◌, if◌then◌else◌}
use pawn_parser.Token.Kind.{Kind}
use pawn_parser.Token.Types.{Position}
use pawn_parser.Lexer.Scanner.{RawToken, Scanner, peek, peek_at, advance, advance_by, emit}

unfoldable pub shift_or_relational_operator : ℕ → ℕ → ℕ → ℕ → Option (ℕ × Kind)
shift_or_relational_operator a b c d =
    if a == b'>'
    then if b == b'>' && c == b'>' && d == b'='
      then some (4, Kind.ushr_assign)
      else if b == b'>' && c == b'>'
      then some (3, Kind.ushr)
      else if b == b'>' && c == b'='
      then some (3, Kind.shr_assign)
      else if b == b'>'
      then some (2, Kind.shr)
      else if b == b'='
      then some (2, Kind.gt_eq)
      else none
    else if b == b'<' && c == b'='
    then some (3, Kind.shl_assign)
    else if b == b'<'
    then some (2, Kind.shl)
    else if b == b'='
    then some (2, Kind.lt_eq)
    else none

unfoldable pub dot_operator : ℕ → ℕ → Option (ℕ × Kind)
dot_operator b c =
    if b == b'.' && c == b'.'
    then some (3, Kind.ellipsis)
    else if b == b'.'
    then some (2, Kind.dot_dot)
    else none

unfoldable pub assignment_operator : ℕ → ℕ → Option (ℕ × Kind)
assignment_operator a b =
    if b == b'='
    then if a == b'+'
      then some (2, Kind.plus_assign)
      else if a == b'-'
      then some (2, Kind.minus_assign)
      else if a == b'*'
      then some (2, Kind.star_assign)
      else if a == b'/'
      then some (2, Kind.slash_assign)
      else if a == b'%'
      then some (2, Kind.percent_assign)
      else if a == b'^'
      then some (2, Kind.xor_assign)
      else none
    else none

unfoldable pub increment_or_assignment_operator : ℕ → ℕ → Option (ℕ × Kind)
unfolding assignment_operator
increment_or_assignment_operator a b =
    if a == b'+' && b == b'+'
    then some (2, Kind.plus_plus)
    else if a == b'-' && b == b'-'
    then some (2, Kind.minus_minus)
    else assignment_operator a b

unfoldable pub logical_or_assignment_operator : ℕ → ℕ → Option (ℕ × Kind)
logical_or_assignment_operator a b =
    if a == b'&' && b == b'&'
    then some (2, Kind.and_and)
    else if a == b'|' && b == b'|'
    then some (2, Kind.or_or)
    else if a == b'&' && b == b'='
    then some (2, Kind.and_assign)
    else if a == b'|' && b == b'='
    then some (2, Kind.or_assign)
    else none

unfoldable pub paired_operator : ℕ → ℕ → Option (ℕ × Kind)
paired_operator a b =
    if a == b'=' && b == b'='
    then some (2, Kind.eq)
    else if a == b'!' && b == b'='
    then some (2, Kind.not_eq)
    else if a == b':' && b == b':'
    then some (2, Kind.colon_colon)
    else none

unfoldable pub multi_operator_kind : ℕ → ℕ → ℕ → ℕ → Option (ℕ × Kind)
unfolding shift_or_relational_operator dot_operator increment_or_assignment_operator
    assignment_operator logical_or_assignment_operator paired_operator
multi_operator_kind a b c d =
    if a == b'>' || a == b'<'
    then shift_or_relational_operator a b c d
    else if a == b'.'
    then dot_operator b c
    else if a == b'+' || a == b'-'
    then increment_or_assignment_operator a b
    else if a == b'*' || a == b'/' || a == b'%' || a == b'^'
    then assignment_operator a b
    else if a == b'&' || a == b'|'
    then logical_or_assignment_operator a b
    else if a == b'=' || a == b'!' || a == b':'
    then paired_operator a b
    else none

unfoldable pub single_operator_kind : ℕ → Option Kind
single_operator_kind c =
    if c == b'+'
    then some Kind.plus
    else if c == b'-'
    then some Kind.minus
    else if c == b'*'
    then some Kind.star
    else if c == b'/'
    then some Kind.slash
    else if c == b'%'
    then some Kind.percent
    else if c == b'='
    then some Kind.assign
    else if c == b'<'
    then some Kind.lt
    else if c == b'>'
    then some Kind.gt
    else if c == b'&'
    then some Kind.amp
    else if c == b'|'
    then some Kind.pipe
    else if c == b'^'
    then some Kind.caret
    else if c == b'~'
    then some Kind.tilde
    else if c == b'!'
    then some Kind.bang
    else if c == b'?'
    then some Kind.question
    else if c == b':'
    then some Kind.colon
    else if c == b';'
    then some Kind.semicolon
    else if c == b','
    then some Kind.comma
    else if c == b'.'
    then some Kind.dot
    else if c == b'('
    then some Kind.lparen
    else if c == b')'
    then some Kind.rparen
    else if c == b'['
    then some Kind.l_bracket
    else if c == b']'
    then some Kind.r_bracket
    else if c == b'{'
    then some Kind.l_brace
    else if c == b'}'
    then some Kind.r_brace
    else if c == b'#'
    then some Kind.hash
    else if c == b'@'
    then some Kind.at
    else none

unfoldable pub consume_op : Position → ℕ → Kind → Scanner → RawToken × Scanner
unfolding advance_by
consume_op start n kind s = emit kind start (advance_by n s)

unfoldable pub single_operator : Position → Option Kind → Scanner → RawToken × Scanner
unfolding advance
single_operator start (some kind) s = emit kind start (advance s)
single_operator start none s = emit Kind.unknown start (advance s)

unfoldable pub operator : Position → Option (ℕ × Kind) → Scanner → RawToken × Scanner
unfolding consume_op single_operator single_operator_kind
operator start (some (n, kind)) s = consume_op start n kind s
operator start none s = single_operator start (single_operator_kind (peek s)) s

unfoldable pub scan_operator : Position → Scanner → RawToken × Scanner
unfolding operator multi_operator_kind
scan_operator start s =
    operator start (multi_operator_kind (peek s) (peek_at s 1) (peek_at s 2) (peek_at s 3)) s
