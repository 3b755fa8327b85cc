-- ===== src/Token/Types.antt =====
-- token/token.go: positions, origins, tokens and trivia. A nil `*Origin` is the empty chain.
use pawn_parser.Prelude.{ℕ, Bool, ◌||◌, List, [], Bytes, ltb, if◌then◌else◌, length, slice}
use pawn_parser.Token.Kind.{Kind, newline, kind_eq}

pub record Position : Type 0 where
  pub offset : ℕ
  pub line : ℕ
  pub col : ℕ

pub record Span : Type 0 where
  pub file : ℕ
  pub start : Position
  pub end : Position

-- One link of an origin chain: the fields of `Origin` but `Parent`, which is the rest of the chain.
pub record OriginLink : Type 0 where
  pub span : Span
  pub macro : Bytes

abbrev pub Origin : Type 0
Origin = List OriginLink

pub record Trivia : Type 0 where
  pub kind : Kind
  pub start : Position
  pub end : Position

pub record Token : Type 0 where
  pub kind : Kind
  pub start : Position
  pub end : Position
  pub leading_trivia : List Trivia
  pub trailing_trivia : List Trivia
  pub origin : Origin

-- The text between two positions; offsets are never negative here.
abbrev pub span_text : Position → Position → Bytes → Bytes
span_text start end source =
    if ltb (length source) end.offset || ltb end.offset start.offset
    then []
    else slice source start.offset end.offset

-- `Token.Text`
unfoldable pub token_text : Token → Bytes → Bytes
token_text t source = span_text t.start t.end source

-- `Trivia.Text`
unfoldable pub trivia_text : Trivia → Bytes → Bytes
trivia_text t source = span_text t.start t.end source

-- `Trivia.IsBlankLine`
pub is_blank_line : Trivia → Bool
is_blank_line t = kind_eq t.kind newline
