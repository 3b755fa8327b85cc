-- ===== src/Token/Kind.antt =====
-- token/token.go: the kinds of token, their spelled names, and the keywords.
use pawn_parser.Prelude.{ℕ, Bool, ◌==◌}

-- The constants of type `Kind`, in the order that gives them their values.
pub data Kind : Type 0 where
  invalid eof unknown identifier int_literal float_literal char_literal string_literal : Kind
  packed_string macro_param kw_public kw_stock kw_static kw_native kw_forward kw_const : Kind
  kw_new kw_decl kw_enum kw_switch kw_case kw_default kw_if kw_else kw_for kw_while kw_do : Kind
  kw_return kw_break kw_continue kw_goto kw_sizeof kw_tagof kw_state kw_defined : Kind
  kw_operator kw_null plus minus star slash percent assign plus_assign minus_assign : Kind
  star_assign slash_assign percent_assign shl_assign shr_assign ushr_assign and_assign : Kind
  or_assign xor_assign eq not_eq lt gt lt_eq gt_eq shl shr ushr and_and or_or amp pipe : Kind
  caret tilde bang plus_plus minus_minus question colon colon_colon semicolon comma dot : Kind
  dot_dot ellipsis lparen rparen l_bracket r_bracket l_brace r_brace hash at comment : Kind
  whitespace newline line_continuation : Kind

-- The value of the constant.
unfoldable pub ordinal : Kind → ℕ
ordinal invalid = 0
ordinal eof = 1
ordinal unknown = 2
ordinal identifier = 3
ordinal int_literal = 4
ordinal float_literal = 5
ordinal char_literal = 6
ordinal string_literal = 7
ordinal packed_string = 8
ordinal macro_param = 9
ordinal kw_public = 10
ordinal kw_stock = 11
ordinal kw_static = 12
ordinal kw_native = 13
ordinal kw_forward = 14
ordinal kw_const = 15
ordinal kw_new = 16
ordinal kw_decl = 17
ordinal kw_enum = 18
ordinal kw_switch = 19
ordinal kw_case = 20
ordinal kw_default = 21
ordinal kw_if = 22
ordinal kw_else = 23
ordinal kw_for = 24
ordinal kw_while = 25
ordinal kw_do = 26
ordinal kw_return = 27
ordinal kw_break = 28
ordinal kw_continue = 29
ordinal kw_goto = 30
ordinal kw_sizeof = 31
ordinal kw_tagof = 32
ordinal kw_state = 33
ordinal kw_defined = 34
ordinal kw_operator = 35
ordinal kw_null = 36
ordinal plus = 37
ordinal minus = 38
ordinal star = 39
ordinal slash = 40
ordinal percent = 41
ordinal assign = 42
ordinal plus_assign = 43
ordinal minus_assign = 44
ordinal star_assign = 45
ordinal slash_assign = 46
ordinal percent_assign = 47
ordinal shl_assign = 48
ordinal shr_assign = 49
ordinal ushr_assign = 50
ordinal and_assign = 51
ordinal or_assign = 52
ordinal xor_assign = 53
ordinal eq = 54
ordinal not_eq = 55
ordinal lt = 56
ordinal gt = 57
ordinal lt_eq = 58
ordinal gt_eq = 59
ordinal shl = 60
ordinal shr = 61
ordinal ushr = 62
ordinal and_and = 63
ordinal or_or = 64
ordinal amp = 65
ordinal pipe = 66
ordinal caret = 67
ordinal tilde = 68
ordinal bang = 69
ordinal plus_plus = 70
ordinal minus_minus = 71
ordinal question = 72
ordinal colon = 73
ordinal colon_colon = 74
ordinal semicolon = 75
ordinal comma = 76
ordinal dot = 77
ordinal dot_dot = 78
ordinal ellipsis = 79
ordinal lparen = 80
ordinal rparen = 81
ordinal l_bracket = 82
ordinal r_bracket = 83
ordinal l_brace = 84
ordinal r_brace = 85
ordinal hash = 86
ordinal at = 87
ordinal comment = 88
ordinal whitespace = 89
ordinal newline = 90
ordinal line_continuation = 91

-- `a == b` on kinds.
unfoldable pub kind_eq : Kind → Kind → Bool
unfolding ordinal
kind_eq a b = ordinal a == ordinal b
