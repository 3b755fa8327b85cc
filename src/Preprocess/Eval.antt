-- ===== src/Preprocess/Eval.antt =====
-- preprocess/ifexpr.go: what an evaluation knows, its state, and the operators on values. `none`
-- stands for a run out of fuel and belongs to the model only.
use pawn_parser.Prelude.{
  ℕ, zero, suc, Bool, true, false, not, ◌&&◌, ◌||◌, List, [], ◌∷◌, Bytes, bytes_eq, Option, none,
  some, ◌==◌, if◌then◌else◌,
}
use pawn_parser.Token.Kind.{Kind, kind_eq}
use pawn_parser.Lexer.Attach.{BlockPools}
use pawn_parser.Preprocess.Int64.{
  bool_to_int, less, plus, minus, times, quotient, remainder, shift_left, shift_right, bits_or,
  bits_xor, bits_and,
}
use pawn_parser.Preprocess.Macros.{Ptok, MacroTable}

-- What a condition asks of the declarations before it.
pub record Declarations : Type 0 where
  pub size_of : Bytes → List Bytes → Option ℕ
  pub defined : Bytes → Bool
  pub constant : Bytes → Option (List Ptok)

-- The fields of `exprEval` that stay as they are. The engine always has a table of macros, so
-- that the test of `evalIdent` for a nil one is left out.
pub record Env : Type 0 where
  pub macros : MacroTable
  pub symbols : List (Bytes × Bytes)
  pub declarations : Declarations
  pub pools : BlockPools

-- The fields of `exprEval` that change.
pub record Eval : Type 0 where
  pub pos : ℕ
  pub unknown : Bool

abbrev pub Result : Type 0
Result = Option (ℕ × Eval)

infixl 5 ◌>>=◌
abbrev pub ◌>>=◌ : {A B : Type 0} → Option A → (A → Option B) → Option B
none >>= f = none
some a >>= f = f a

abbrev pub eof_token : Ptok
eof_token = record { kind = Kind.eof; text = [] }

-- A failure yields 0 and marks the condition as unknown.
abbrev pub fail : Eval → Result
fail s = some (0, record s { unknown = true })

-- The token at a position, or the end of the file.
unfoldable pub token_at : List Ptok → ℕ → Ptok
token_at [] i = eof_token
token_at (t ∷ ts) zero = t
token_at (t ∷ ts) (suc i) = token_at ts i

-- `cloneExprGuard` adds a name to the guard.
unfoldable pub guarded : List Bytes → Bytes → Bool
unfolding bytes_eq
guarded [] name = false
guarded (g ∷ gs) name = bytes_eq g name || guarded gs name

-- A binary operator on values; `none` where it fails.
unfoldable pub apply : Kind → ℕ → ℕ → Option ℕ
apply Kind.or_or a b = some (bool_to_int (not (a == 0) || not (b == 0)))
apply Kind.and_and a b = some (bool_to_int (not (a == 0) && not (b == 0)))
apply Kind.pipe a b = some (bits_or a b)
apply Kind.caret a b = some (bits_xor a b)
apply Kind.amp a b = some (bits_and a b)
apply Kind.eq a b = some (bool_to_int (a == b))
apply Kind.not_eq a b = some (bool_to_int (not (a == b)))
apply Kind.lt a b = some (bool_to_int (less a b))
apply Kind.gt a b = some (bool_to_int (less b a))
apply Kind.lt_eq a b = some (bool_to_int (not (less b a)))
apply Kind.gt_eq a b = some (bool_to_int (not (less a b)))
apply Kind.shl a b = some (shift_left a b)
apply Kind.shr a b = some (shift_right a b)
apply Kind.plus a b = some (plus a b)
apply Kind.minus a b = some (minus a b)
apply Kind.star a b = some (times a b)
apply Kind.slash a b = if b == 0 then none else some (quotient a b)
apply Kind.percent a b = if b == 0 then none else some (remainder a b)
apply _ a b = none

unfoldable pub is_among : List Kind → Kind → Bool
unfolding kind_eq
is_among [] kind = false
is_among (op ∷ ops) kind = kind_eq op kind || is_among ops kind

abbrev pub applied : Option ℕ → Eval → ℕ × Eval
applied none s = (0, record s { unknown = true })
applied (some v) s = (v, s)
