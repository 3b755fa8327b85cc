-- ===== src/Lexer/Syntax.antt =====
-- lexer/lexer.go: `buildSyntaxTokens`, `finishSyntax` and `TokenizeSyntax`, which keep flags in place
-- of the trivia.
pub mod Summary
pub mod Loop
pub mod Refines
use pawn_parser.Prelude.{
  ℕ, zero, suc, ◌+◌, Bool, true, false, List, [], ◌∷◌, Bytes, Option, none, some, if◌then◌else◌,
  length,
}
use pawn_parser.Token.Kind.{Kind, kind_eq}
use pawn_parser.Token.Keyword.{is_trivia}
use pawn_parser.Token.Types.{Position}
use pawn_parser.Token.Compact.{
  TriviaFlags, no_flags, union, trivia_flags, SyntaxToken, ◌>>=◌, each, compact_uint,
}
use pawn_parser.Token.LineMap.{LineMap, new_line_map}
use pawn_parser.Lexer.Scanner.{RawToken, Scanner, new_scanner}
use pawn_parser.Lexer.Raw.{next_raw}
use pawn_parser.Lexer.Builder.{Builder, Pools, empty_builder, append, finish}

-- `builtToken`, without the trivia ranges, which the syntax tokens leave at zero.
pub record FlaggedToken : Type 0 where
  pub kind : Kind
  pub start : Position
  pub end : Position
  pub leading_flags : TriviaFlags
  pub trailing_flags : TriviaFlags

abbrev blank_position : Position
blank_position = record { offset = 0; line = 0; col = 0 }

abbrev pub blank_flagged : FlaggedToken
blank_flagged = record {
  kind = Kind.invalid;
  start = blank_position;
  end = blank_position;
  leading_flags = no_flags;
  trailing_flags = no_flags;
}

abbrev pub flagged : RawToken → TriviaFlags → TriviaFlags → FlaggedToken
flagged r leading trailing = record {
  kind = r.kind;
  start = r.start;
  end = r.end;
  leading_flags = leading;
  trailing_flags = trailing;
}

-- The pending token, if there is one, or the next.
unfoldable pub taken : Option RawToken → Scanner → RawToken × Scanner
unfolding next_raw
taken (some r) s = (r, s)
taken none s = next_raw s

-- A round of the inner loop, with the rounds that follow it: the flags of the trailing trivia, and
-- the pending token, if one ended it.
unfoldable pub flags_round :
    (Scanner → TriviaFlags → Option (TriviaFlags × Option RawToken × Scanner))
    → TriviaFlags
    → RawToken × Scanner
    → Option (TriviaFlags × Option RawToken × Scanner)
unfolding is_trivia kind_eq union trivia_flags
flags_round onward flags (r, s) =
    if is_trivia r.kind
    then if kind_eq r.kind Kind.newline
      then some (union flags (trivia_flags r.kind), none, s)
      else onward s (union flags (trivia_flags r.kind))
    else some (flags, some r, s)

-- The inner loop.
unfoldable pub flags_loop :
    ℕ → Scanner → TriviaFlags → Option (TriviaFlags × Option RawToken × Scanner)
unfolding flags_round next_raw
flags_loop zero s flags = none
flags_loop (suc fuel) s flags = flags_round (flags_loop fuel) flags (next_raw s)

unfoldable pub syntax_token : FlaggedToken → Option SyntaxToken
unfolding compact_uint
syntax_token built = do
  start ← compact_uint built.start.offset
  end ← compact_uint built.end.offset
  some (record {
    kind = built.kind;
    start = start;
    end = end;
    leading_flags = built.leading_flags;
    trailing_flags = built.trailing_flags;
  })

module _ (pools : Pools FlaggedToken) where
  -- A round of the outer loop, with the rounds that follow it. The inner loop has `size` rounds.
  unfoldable pub syntax_round :
      ℕ
      → (TriviaFlags
          → Option RawToken
          → Scanner
          → Builder FlaggedToken
          → Option (Builder FlaggedToken))
      → TriviaFlags
      → Builder FlaggedToken
      → RawToken × Scanner
      → Option (Builder FlaggedToken)
  unfolding flags_loop is_trivia kind_eq union trivia_flags append
  syntax_round size onward flags tokens (r, s) =
      if is_trivia r.kind
      then onward (union flags (trivia_flags r.kind)) none s tokens
      else if kind_eq r.kind Kind.eof
      then some (append pools blank_flagged tokens (flagged r flags no_flags))
      else flags_loop size s no_flags >>= λ (trailing, pending, t).
          onward no_flags pending t (append pools blank_flagged tokens (flagged r flags trailing))

  unfoldable pub syntax_loop :
      ℕ
      → ℕ
      → TriviaFlags
      → Option RawToken
      → Scanner
      → Builder FlaggedToken
      → Option (Builder FlaggedToken)
  unfolding syntax_round taken
  syntax_loop size zero flags pending s tokens = none
  syntax_loop size (suc fuel) flags pending s tokens =
      syntax_round size (syntax_loop size fuel) flags tokens (taken pending s)

  -- `buildSyntaxTokens`
  unfoldable pub build_syntax_tokens : Bytes → Option (Builder FlaggedToken)
  unfolding syntax_loop
  build_syntax_tokens src =
      syntax_loop (length src + 1) (length src + 1) no_flags none (new_scanner src) empty_builder

  -- `finishSyntax`
  unfoldable pub finish_syntax : Builder FlaggedToken → Option (List SyntaxToken)
  unfolding syntax_token each finish
  finish_syntax b = each syntax_token (finish pools blank_flagged b)

  -- `TokenizeSyntax`
  unfoldable pub tokenize_syntax : Bytes → Option (List SyntaxToken × LineMap)
  unfolding build_syntax_tokens finish_syntax new_line_map
  tokenize_syntax src = do
    built ← build_syntax_tokens src
    tokens ← finish_syntax built
    some (tokens, new_line_map src)
