-- ===== src/Lexer/Compact.antt =====
-- lexer/lexer.go: `finishCompact` and `TokenizeCompact` with its variants.
pub mod Ranges
pub mod Expand
use pawn_parser.Prelude.{
  ℕ, ◌+◌, ◌-◌, Bool, true, false, List, [], ◌∷◌, Bytes, Option, none, some, ltb, ◌==◌,
  if◌then◌else◌, map,
}
use pawn_parser.Token.Types.{Trivia, Token}
use pawn_parser.Token.Compact.{
  no_flags, CompactPosition, CompactTrivia, CompactToken, ◌>>=◌, each, compact_uint,
  compact_position,
}
use pawn_parser.Lexer.Builder.{finish}
use pawn_parser.Lexer.Attach.{
  BuiltToken, BlockPools, Context, Outcome, done, cancelled, panicked, out_of_fuel, build_tokens,
  resolve, blank_built, blank_trivia, Build,
}

unfoldable pub compact_trivia : Trivia → Option CompactTrivia
unfolding compact_position
compact_trivia item = do
  start ← compact_position item.start
  end ← compact_position item.end
  some (record { kind = item.kind; start = start; end = end })

-- `compactUint(end - start)`, which panics at a negative difference.
unfoldable pub compact_count : ℕ → ℕ → Option ℕ
unfolding compact_uint
compact_count start end = if ltb end start then none else compact_uint (end - start)

-- The start and the count of a range; an empty range keeps two zeros.
unfoldable pub compact_range : ℕ → ℕ → Option (ℕ × ℕ)
unfolding compact_uint compact_count
compact_range start end =
    if start == end
    then some (0, 0)
    else (compact_uint start >>= λ s. compact_count start end >>= λ n. some (s, n))

-- A range that is kept only with the trivia.
unfoldable pub kept_range : Bool → ℕ → ℕ → Option (ℕ × ℕ)
unfolding compact_range
kept_range true start end = compact_range start end
kept_range false start end = some (0, 0)

unfoldable pub compact_token : Bool → BuiltToken → Option CompactToken
unfolding compact_position kept_range
compact_token retain built = do
  start ← compact_position built.start
  end ← compact_position built.end
  leading ← kept_range retain built.trivia.leading_start built.trivia.trailing_start
  trailing ← kept_range retain built.trivia.trailing_start built.trivia.trailing_end
  some (record {
    kind = built.kind;
    start = start;
    end = end;
    leading_start = leading.0;
    leading_count = leading.1;
    trailing_start = trailing.0;
    trailing_count = trailing.1;
    origin = 0;
    leading_flags = no_flags;
    trailing_flags = no_flags;
  })

abbrev pub Compacted : Type 0
Compacted = List Token × List CompactToken × List CompactTrivia

unfoldable pub kept_trivia : Bool → List Trivia → Option (List CompactTrivia)
unfolding each compact_trivia
kept_trivia true trivia = each compact_trivia trivia
kept_trivia false trivia = some []

unfoldable pub full_tokens : Bool → List Trivia → List BuiltToken → Option (List Token)
unfolding each resolve
full_tokens true trivia built = each (resolve trivia) built
full_tokens false trivia built = some []

-- `finishCompact`, for the tokens of the builder; `full` is `buildFull`.
unfoldable pub finish_compact : Bool → Bool → List Trivia → List BuiltToken → Option Compacted
unfolding kept_trivia full_tokens each compact_token
finish_compact retain full trivia built = do
  compact_trivia ← kept_trivia retain trivia
  tokens ← full_tokens full trivia built
  compact ← each (compact_token retain) built
  some (tokens, compact, compact_trivia)

module _ (pools : BlockPools) where
  unfoldable pub finish_build : Bool → Bool → Build → Option Compacted
  unfolding finish_compact finish
  finish_build retain full b =
      finish_compact retain full (finish pools.trivia blank_trivia b.trivia)
        (finish pools.built blank_built b.tokens)

  unfoldable pub compact_run : Context → Bytes → Bool → Bool → Outcome (Option Compacted)
  unfolding build_tokens finish_build
  compact_run ctx src retain full = built (build_tokens pools ctx src)
    where
      built : Outcome Build → Outcome (Option Compacted)
      built (done b) = done (finish_build retain full b)
      built cancelled = cancelled
      built panicked = panicked
      built out_of_fuel = out_of_fuel

  abbrev background : Context
  background = record { at_start = false; cancellable = false; err = λ _. false }

  -- `TokenizeCompact`
  unfoldable pub tokenize_compact : Bytes → Bool → Outcome (Option Compacted)
  unfolding compact_run
  tokenize_compact src retain = compact_run background src retain true

  -- `TokenizeCompactContext`
  unfoldable pub tokenize_compact_context : Context → Bytes → Bool → Outcome (Option Compacted)
  unfolding compact_run
  tokenize_compact_context ctx src retain =
      if ctx.at_start
      then cancelled
      else compact_run (record ctx { cancellable = true }) src retain true

  -- `TokenizeCompactOnly`, whose full tokens are empty
  unfoldable pub tokenize_compact_only : Bytes → Bool → Outcome (Option Compacted)
  unfolding compact_run
  tokenize_compact_only src retain = compact_run background src retain false
