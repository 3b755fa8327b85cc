-- ===== src/Token/Keyword.antt =====
-- token/token.go: the keyword table, the names of the kinds, and the trivia kinds.
pub mod Spelling
use pawn_parser.Prelude.{
  Bool, true, false, List, [], ◌∷◌, Option, none, some, Bytes, codes, bytes_eq, if◌then◌else◌,
}
use pawn_parser.Token.Kind.{Kind}

-- The map `keywords`, as an association list.
abbrev pub keywords : List (Bytes × Kind)
keywords =
    (codes "public", Kind.kw_public)
    ∷ (codes "stock", Kind.kw_stock)
    ∷ (codes "static", Kind.kw_static)
    ∷ (codes "native", Kind.kw_native)
    ∷ (codes "forward", Kind.kw_forward)
    ∷ (codes "const", Kind.kw_const)
    ∷ (codes "new", Kind.kw_new)
    ∷ (codes "decl", Kind.kw_decl)
    ∷ (codes "enum", Kind.kw_enum)
    ∷ (codes "switch", Kind.kw_switch)
    ∷ (codes "case", Kind.kw_case)
    ∷ (codes "default", Kind.kw_default)
    ∷ (codes "if", Kind.kw_if)
    ∷ (codes "else", Kind.kw_else)
    ∷ (codes "for", Kind.kw_for)
    ∷ (codes "while", Kind.kw_while)
    ∷ (codes "do", Kind.kw_do)
    ∷ (codes "return", Kind.kw_return)
    ∷ (codes "break", Kind.kw_break)
    ∷ (codes "continue", Kind.kw_continue)
    ∷ (codes "goto", Kind.kw_goto)
    ∷ (codes "sizeof", Kind.kw_sizeof)
    ∷ (codes "tagof", Kind.kw_tagof)
    ∷ (codes "state", Kind.kw_state)
    ∷ (codes "defined", Kind.kw_defined)
    ∷ (codes "operator", Kind.kw_operator)
    ∷ (codes "null", Kind.kw_null)
    ∷ []

unfoldable pub lookup : Bytes → List (Bytes × Kind) → Option Kind
unfolding bytes_eq
lookup text [] = none
lookup text ((word, k) ∷ rest) = if bytes_eq word text then some k else lookup text rest

unfoldable pub lookup_keyword : Bytes → Option Kind
unfolding lookup
lookup_keyword text = lookup text keywords

unfoldable pub is_trivia : Kind → Bool
is_trivia Kind.comment = true
is_trivia Kind.whitespace = true
is_trivia Kind.newline = true
is_trivia Kind.line_continuation = true
is_trivia _ = false

-- `Kind.String`, by the table `kindNames`.
unfoldable pub kind_name : Kind → Bytes
kind_name Kind.invalid = codes "Invalid"
kind_name Kind.eof = codes "EOF"
kind_name Kind.unknown = codes "Unknown"
kind_name Kind.identifier = codes "Identifier"
kind_name Kind.int_literal = codes "IntLiteral"
kind_name Kind.float_literal = codes "FloatLiteral"
kind_name Kind.char_literal = codes "CharLiteral"
kind_name Kind.string_literal = codes "StringLiteral"
kind_name Kind.packed_string = codes "PackedString"
kind_name Kind.macro_param = codes "MacroParam"
kind_name Kind.kw_public = codes "public"
kind_name Kind.kw_stock = codes "stock"
kind_name Kind.kw_static = codes "static"
kind_name Kind.kw_native = codes "native"
kind_name Kind.kw_forward = codes "forward"
kind_name Kind.kw_const = codes "const"
kind_name Kind.kw_new = codes "new"
kind_name Kind.kw_decl = codes "decl"
kind_name Kind.kw_enum = codes "enum"
kind_name Kind.kw_switch = codes "switch"
kind_name Kind.kw_case = codes "case"
kind_name Kind.kw_default = codes "default"
kind_name Kind.kw_if = codes "if"
kind_name Kind.kw_else = codes "else"
kind_name Kind.kw_for = codes "for"
kind_name Kind.kw_while = codes "while"
kind_name Kind.kw_do = codes "do"
kind_name Kind.kw_return = codes "return"
kind_name Kind.kw_break = codes "break"
kind_name Kind.kw_continue = codes "continue"
kind_name Kind.kw_goto = codes "goto"
kind_name Kind.kw_sizeof = codes "sizeof"
kind_name Kind.kw_tagof = codes "tagof"
kind_name Kind.kw_state = codes "state"
kind_name Kind.kw_defined = codes "defined"
kind_name Kind.kw_operator = codes "operator"
kind_name Kind.kw_null = codes "null"
kind_name Kind.plus = codes "+"
kind_name Kind.minus = codes "-"
kind_name Kind.star = codes "*"
kind_name Kind.slash = codes "/"
kind_name Kind.percent = codes "%"
kind_name Kind.assign = codes "="
kind_name Kind.plus_assign = codes "+="
kind_name Kind.minus_assign = codes "-="
kind_name Kind.star_assign = codes "*="
kind_name Kind.slash_assign = codes "/="
kind_name Kind.percent_assign = codes "%="
kind_name Kind.shl_assign = codes "<<="
kind_name Kind.shr_assign = codes ">>="
kind_name Kind.ushr_assign = codes ">>>="
kind_name Kind.and_assign = codes "&="
kind_name Kind.or_assign = codes "|="
kind_name Kind.xor_assign = codes "^="
kind_name Kind.eq = codes "=="
kind_name Kind.not_eq = codes "!="
kind_name Kind.lt = codes "<"
kind_name Kind.gt = codes ">"
kind_name Kind.lt_eq = codes "<="
kind_name Kind.gt_eq = codes ">="
kind_name Kind.shl = codes "<<"
kind_name Kind.shr = codes ">>"
kind_name Kind.ushr = codes ">>>"
kind_name Kind.and_and = codes "&&"
kind_name Kind.or_or = codes "||"
kind_name Kind.amp = codes "&"
kind_name Kind.pipe = codes "|"
kind_name Kind.caret = codes "^"
kind_name Kind.tilde = codes "~"
kind_name Kind.bang = codes "!"
kind_name Kind.plus_plus = codes "++"
kind_name Kind.minus_minus = codes "--"
kind_name Kind.question = codes "?"
kind_name Kind.colon = codes ":"
kind_name Kind.colon_colon = codes "::"
kind_name Kind.semicolon = codes ";"
kind_name Kind.comma = codes ","
kind_name Kind.dot = codes "."
kind_name Kind.dot_dot = codes ".."
kind_name Kind.ellipsis = codes "..."
kind_name Kind.lparen = codes "("
kind_name Kind.rparen = codes ")"
kind_name Kind.l_bracket = codes "["
kind_name Kind.r_bracket = codes "]"
kind_name Kind.l_brace = codes "{"
kind_name Kind.r_brace = codes "}"
kind_name Kind.hash = codes "#"
kind_name Kind.at = codes "@"
kind_name Kind.comment = codes "Comment"
kind_name Kind.whitespace = codes "Whitespace"
kind_name Kind.newline = codes "Newline"
kind_name Kind.line_continuation = codes "LineContinuation"
