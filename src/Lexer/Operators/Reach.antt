-- ===== src/Lexer/Operators/Reach.antt =====
-- No operator that the next bytes spell is longer than the one that the lexer takes.
use pawn_parser.Prelude.{ℕ, ◌≤◌, ◌≡◌, true, false, [], ◌∷◌, leb, arith, length}
use pawn_parser.Token.Kind.{Kind, ordinal}
use pawn_parser.Token.Keyword.{kind_name}
use pawn_parser.Lexer.Operators.{multi_operator_kind}
use pawn_parser.Lexer.Operators.Longest.{is_operator, is_prefix, reach}

pub long_reach :
    (a b c d : ℕ) (j : Kind)
    → is_operator j ≡ true
    → leb (length (kind_name j)) 1 ≡ false
    → is_prefix (kind_name j) (a ∷ b ∷ c ∷ d ∷ []) ≡ true
    → length (kind_name j) ≤ reach (multi_operator_kind a b c d)
unfolding multi_operator_kind kind_name ordinal
long_reach a b c d Kind.plus_assign h l p = ground arith
long_reach a b c d Kind.minus_assign h l p = ground arith
long_reach a b c d Kind.star_assign h l p = ground arith
long_reach a b c d Kind.slash_assign h l p = ground arith
long_reach a b c d Kind.percent_assign h l p = ground arith
long_reach a b c d Kind.shl_assign h l p = ground arith
long_reach a b c d Kind.shr_assign h l p = ground arith
long_reach a b c d Kind.ushr_assign h l p = ground arith
long_reach a b c d Kind.and_assign h l p = ground arith
long_reach a b c d Kind.or_assign h l p = ground arith
long_reach a b c d Kind.xor_assign h l p = ground arith
long_reach a b c d Kind.eq h l p = ground arith
long_reach a b c d Kind.not_eq h l p = ground arith
long_reach a b c d Kind.lt_eq h l p = ground arith
long_reach a b c d Kind.gt_eq h l p = ground arith
long_reach a b c d Kind.shl h l p = ground arith
long_reach a b c d Kind.shr h l p = ground arith
long_reach a b c d Kind.ushr h l p = ground arith
long_reach a b c d Kind.and_and h l p = ground arith
long_reach a b c d Kind.or_or h l p = ground arith
long_reach a b c d Kind.plus_plus h l p = ground arith
long_reach a b c d Kind.minus_minus h l p = ground arith
long_reach a b c d Kind.colon_colon h l p = ground arith
long_reach a b c d Kind.dot_dot h l p = ground arith
long_reach a b c d Kind.ellipsis h l p = ground arith
long_reach a b c d _ h l p = cc
