-- ===== src/Token/Compact.antt =====
-- token/compact.go: token records of bounded width, and the conversions of lexer/lexer.go to them.
-- A panic of `compactUint` is `none`.
use pawn_parser.Prelude.{
  ℕ, ◌^◌, Bool, true, false, ◌||◌, List, [], ◌∷◌, Option, none, some, ltb, if◌then◌else◌,
}
use pawn_parser.Token.Kind.{Kind, kind_eq}
use pawn_parser.Token.Types.{Position}

-- The set of the two bits `TriviaPresent` and `TriviaEndsLine`.
pub record TriviaFlags : Type 0 where
  pub present : Bool
  pub ends_line : Bool

abbrev pub no_flags : TriviaFlags
no_flags = record { present = false; ends_line = false }

-- `|` on flags
unfoldable pub union : TriviaFlags → TriviaFlags → TriviaFlags
union f g = record { present = f.present || g.present; ends_line = f.ends_line || g.ends_line }

-- `triviaFlags` of lexer/lexer.go
unfoldable pub trivia_flags : Kind → TriviaFlags
unfolding kind_eq
trivia_flags kind = record { present = true; ends_line = kind_eq kind Kind.newline }

pub record CompactPosition : Type 0 where
  pub offset : ℕ
  pub line : ℕ
  pub col : ℕ

pub record CompactTrivia : Type 0 where
  pub kind : Kind
  pub start : CompactPosition
  pub end : CompactPosition

pub record CompactToken : Type 0 where
  pub kind : Kind
  pub start : CompactPosition
  pub end : CompactPosition
  pub leading_start : ℕ
  pub leading_count : ℕ
  pub trailing_start : ℕ
  pub trailing_count : ℕ
  pub origin : ℕ
  pub leading_flags : TriviaFlags
  pub trailing_flags : TriviaFlags

pub record SyntaxToken : Type 0 where
  pub kind : Kind
  pub start : ℕ
  pub end : ℕ
  pub leading_flags : TriviaFlags
  pub trailing_flags : TriviaFlags

infixl 5 ◌>>=◌
abbrev pub ◌>>=◌ : {A B : Type 0} → Option A → (A → Option B) → Option B
none >>= f = none
some a >>= f = f a

-- `f` on each element in order, until one panics.
unfoldable pub each : {A B : Type 0} → (A → Option B) → List A → Option (List B)
each f [] = some []
each f (x ∷ xs) = do y ← f x; ys ← each f xs; some (y ∷ ys)

unfoldable pub compact_uint : ℕ → Option ℕ
compact_uint value = if ltb value (2 ^ 32) then some value else none

unfoldable pub compact_position : Position → Option CompactPosition
unfolding compact_uint
compact_position p = do
  offset ← compact_uint p.offset
  line ← compact_uint p.line
  col ← compact_uint p.col
  some (record { offset = offset; line = line; col = col })
