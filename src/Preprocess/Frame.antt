-- ===== src/Preprocess/Frame.antt =====
-- preprocess/engine.go: the tokens of one file as the engine walks over them; and of
-- preprocess/diagnostic.go the codes and the records of diagnostics, without their texts.
use pawn_parser.Prelude.{
  ℕ, zero, suc, ◌+◌, ◌-◌, Bool, true, false, ◌||◌, List, [], ◌∷◌, Bytes, ltb, if◌then◌else◌, length,
}
use pawn_parser.Token.Kind.{Kind, kind_eq}
use pawn_parser.Token.Types.{Position, Trivia, Token}

pub record ByteRange : Type 0 where
  pub start : ℕ
  pub end : ℕ

-- `Code`
pub data Code : Type 0 where
  unterminated_conditional unmatched_elseif unmatched_else unmatched_endif : Code
  conditional_depth_limit unresolvable_condition unknown_directive malformed_define : Code
  macro_argument_mismatch unterminated_invocation expansion_depth_limit output_size_limit : Code
  malformed_include include_not_found include_cycle include_depth_limit user_error user_warning :
      Code
  assert_failed assert_unknown : Code

-- A `Diagnostic` without its severity, which its code gives, and its message.
pub record Diagnostic : Type 0 where
  pub file : ℕ
  pub code : Code
  pub range : ByteRange

-- `condFrame`
pub record CondFrame : Type 0 where
  pub parent_active : Bool
  pub branch_active : Bool
  pub taken : Bool
  pub open_branch_index : ℕ
  pub overflow : Bool

-- The fields of `frame` that no listing needs; `cond_stack` has its top first.
pub record Frame : Type 0 where
  pub file_index : ℕ
  pub source : Bytes
  pub toks : List Token
  pub pos : ℕ
  pub line_start : Bool
  pub cond_stack : List CondFrame
  pub endinput : Bool

abbrev nowhere : Position
nowhere = record { offset = 0; line = 0; col = 0 }

abbrev eof_token : Token
eof_token = record {
  kind = Kind.eof;
  start = nowhere;
  end = nowhere;
  leading_trivia = [];
  trailing_trivia = [];
  origin = [];
}

-- The token at an index. A frame's tokens end with the end of the file, which it never passes.
unfoldable pub tok_at : List Token → ℕ → Token
tok_at [] i = eof_token
tok_at (t ∷ ts) zero = t
tok_at (t ∷ ts) (suc i) = tok_at ts i

unfoldable pub has_trivia : Kind → List Trivia → Bool
unfolding kind_eq
has_trivia kind [] = false
has_trivia kind (t ∷ ts) = kind_eq t.kind kind || has_trivia kind ts

-- `endsLine`
unfoldable pub ends_line : Token → Bool
unfolding has_trivia
ends_line t = has_trivia Kind.newline t.trailing_trivia

-- `continuesLine`
unfoldable pub continues_line : Token → Bool
unfolding has_trivia
continues_line t = has_trivia Kind.line_continuation t.trailing_trivia

abbrev pub cur : Frame → Token
cur f = tok_at f.toks f.pos

abbrev pub at_kind : Frame → Kind → Bool
at_kind f kind = kind_eq (cur f).kind kind

abbrev pub at_end : Frame → Bool
at_end f = at_kind f Kind.eof

-- `f.toks[f.pos-1]`
abbrev pub previous : Frame → Token
previous f = tok_at f.toks (f.pos - 1)

-- `frame.advance`, which stays at the last token.
unfoldable pub advance : Frame → Token × Frame
unfolding ends_line
advance f = (
  cur f,
  record f {
    pos = if ltb f.pos (length f.toks - 1) then f.pos + 1 else f.pos;
    line_start = ends_line (cur f);
  },
)

unfoldable pub top_active : List CondFrame → Bool
top_active [] = true
top_active (top ∷ rest) = top.branch_active

-- `frame.currentActive`
abbrev pub current_active : Frame → Bool
current_active f = top_active f.cond_stack

-- `spanOf`
abbrev pub span_of : Token → Token → ByteRange
span_of start end = record { start = start.start.offset; end = end.end.offset }

unfoldable pub last_token : Token → List Token → Token
last_token t [] = t
last_token t (u ∷ us) = last_token u us

-- `spanOf` of the first and the last token, or of a token that stands in for none.
unfoldable pub span_or : Token → List Token → ByteRange
unfolding last_token
span_or t [] = span_of t t
span_or t (u ∷ us) = span_of u (last_token u us)

-- The loop of `collectRestOfLine`, with a round for each token.
unfoldable pub rest_loop : ℕ → Frame → List Token × Frame
unfolding advance ends_line kind_eq
rest_loop zero f = ([], f)
rest_loop (suc fuel) f = elim (at_end f) [
  | true ↦ ([], f)
  | false ↦ elim (ends_line (cur f)) [
    | true ↦ (cur f ∷ [], (advance f).1)
    | false ↦ let (ts, g) = rest_loop fuel (advance f).1 in (cur f ∷ ts, g)
  ]
]

-- `collectRestOfLine`
unfoldable pub collect_rest_of_line : Frame → List Token × Frame
unfolding rest_loop
collect_rest_of_line f = rest_loop (length f.toks) f

-- `if !lineEnded { rest = e.collectRestOfLine(f) }`
unfoldable pub rest_of_line : Bool → Frame → List Token × Frame
unfolding collect_rest_of_line
rest_of_line true f = ([], f)
rest_of_line false f = collect_rest_of_line f
