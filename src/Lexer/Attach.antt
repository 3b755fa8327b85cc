-- ===== src/Lexer/Attach.antt =====
-- lexer/lexer.go: `buildTokensWithContext`, `tokenBuilder.finish` and `Tokenize`: the raw tokens with
-- their leading and trailing trivia.
pub mod Relation
pub mod Feeds
pub mod Loop
pub mod Trail
pub mod Slices
pub mod Tokenize
pub mod Result
use pawn_parser.Prelude.{
  ℕ, zero, suc, ◌+◌, ◌%◌, ◌^◌, Bool, true, false, not, ◌&&◌, List, [], ◌∷◌, Bytes, Option, none,
  some, leb, ◌==◌, if◌then◌else◌, length, slice, map,
}
use pawn_parser.Token.Kind.{Kind, kind_eq}
use pawn_parser.Token.Keyword.{is_trivia}
use pawn_parser.Token.Types.{Position, Trivia, Token}
use pawn_parser.Lexer.Scanner.{RawToken, Scanner, new_scanner}
use pawn_parser.Lexer.Raw.{next_raw}
use pawn_parser.Token.Compact.{each}
use pawn_parser.Lexer.Builder.{Builder, Pools, empty_builder, append, finish}

pub record TriviaRange : Type 0 where
  pub leading_start : ℕ
  pub trailing_start : ℕ
  pub trailing_end : ℕ

-- `builtToken`, without the two flag fields, which only the syntax tokens set.
pub record BuiltToken : Type 0 where
  pub kind : Kind
  pub start : Position
  pub end : Position
  pub trivia : TriviaRange

abbrev no_position : Position
no_position = record { offset = 0; line = 0; col = 0 }

abbrev pub blank_trivia : Trivia
blank_trivia = record { kind = Kind.invalid; start = no_position; end = no_position }

abbrev pub blank_built : BuiltToken
blank_built = record {
  kind = Kind.invalid;
  start = no_position;
  end = no_position;
  trivia = record { leading_start = 0; trailing_start = 0; trailing_end = 0 };
}

-- What the loop is asked to watch: whether it is cancellable, and whether `ctx.Err` answers with an
-- error at the start and at each count of steps.
pub record Context : Type 0 where
  pub at_start : Bool
  pub cancellable : Bool
  pub err : ℕ → Bool

-- The pools of blocks behind the two builders.
pub record BlockPools : Type 0 where
  pub built : Pools BuiltToken
  pub trivia : Pools Trivia

-- The variables of `buildTokensWithContext`; `pending` is present when `hasPending` is true.
pub record Build : Type 0 where
  pub scanner : Scanner
  pub pending : Option RawToken
  pub leading_start : ℕ
  pub steps : ℕ
  pub tokens : Builder BuiltToken
  pub trivia : Builder Trivia

-- A run ends with a result, with the context's error or with a panic; `out_of_fuel` belongs to the
-- model only.
pub data Outcome (A : Type 0) : Type 0 where
  done : A → Outcome A
  cancelled : Outcome A
  panicked : Outcome A
  out_of_fuel : Outcome A

infixl 5 ◌>>=◌
abbrev pub ◌>>=◌ : {A B : Type 0} → Outcome A → (A → Outcome B) → Outcome B
done a >>= f = f a
cancelled >>= f = cancelled
panicked >>= f = panicked
out_of_fuel >>= f = out_of_fuel

abbrev pub returned : {A : Type 0} → Option A → Outcome A
returned none = panicked
returned (some a) = done a

abbrev pub to_trivia : RawToken → Trivia
to_trivia r = record { kind = r.kind; start = r.start; end = r.end }

-- The closure `nextRaw`, with its counter of 32 bits.
unfoldable pub count_step : Context → ℕ → Outcome ℕ
count_step ctx steps =
    if ctx.cancellable
    then if (steps + 1) % 2 ^ 32 % 256 == 0 && ctx.err ((steps + 1) % 2 ^ 32)
      then cancelled
      else done ((steps + 1) % 2 ^ 32)
    else done steps

unfoldable pub read_raw : Context → Build → Outcome (RawToken × Build)
unfolding count_step next_raw
read_raw ctx b = do
  steps ← count_step ctx b.steps
  done ((next_raw b.scanner).0, record b { scanner = (next_raw b.scanner).1; steps = steps })

-- The pending token, if there is one, or the next.
unfoldable pub take_raw : Context → Option RawToken → Build → Outcome (RawToken × Build)
unfolding read_raw
take_raw ctx (some r) b = done (r, record b { pending = none })
take_raw ctx none b = read_raw ctx b

-- `triviaSlice`, which panics at a range that is not within the trivia.
unfoldable pub trivia_slice : List Trivia → ℕ → ℕ → Option (List Trivia)
trivia_slice trivia start end =
    if start == end
    then some []
    else if leb start end && leb end (length trivia)
    then some (slice trivia start end)
    else none

abbrev pub token_from_slices :
    BuiltToken → Option (List Trivia) → Option (List Trivia) → Option Token
token_from_slices t none trailing = none
token_from_slices t (some leading) none = none
token_from_slices t (some leading) (some trailing) = some (record {
  kind = t.kind;
  start = t.start;
  end = t.end;
  leading_trivia = leading;
  trailing_trivia = trailing;
  origin = [];
})

unfoldable pub resolve : List Trivia → BuiltToken → Option Token
unfolding trivia_slice
resolve trivia t =
    token_from_slices t (trivia_slice trivia t.trivia.leading_start t.trivia.trailing_start)
      (trivia_slice trivia t.trivia.trailing_start t.trivia.trailing_end)

module _ (pools : BlockPools) where
  unfoldable pub append_trivia : RawToken → Build → Build
  unfolding append
  append_trivia r b = record b { trivia = append pools.trivia blank_trivia b.trivia (to_trivia r) }

  -- A round of the inner loop, with the rounds that follow it.
  unfoldable pub trailing_round : (Build → Outcome Build) → RawToken × Build → Outcome Build
  unfolding append_trivia is_trivia kind_eq
  trailing_round onward (r, b) =
      if is_trivia r.kind
      then if kind_eq r.kind Kind.newline
        then done (append_trivia r b)
        else onward (append_trivia r b)
      else done (record b { pending = some r })

  -- The inner loop: the trivia behind a token, up to the first newline.
  unfoldable pub trailing_loop : ℕ → Context → Build → Outcome Build
  unfolding read_raw trailing_round
  trailing_loop zero ctx b = out_of_fuel
  trailing_loop (suc fuel) ctx b = read_raw ctx b >>= trailing_round (trailing_loop fuel ctx)

  -- The token with the ranges of its trivia; what has been read since `trailing_start` trails it.
  unfoldable pub append_token : RawToken → ℕ → Build → Build
  unfolding append
  append_token r trailing_start b = record b {
    tokens = append pools.built blank_built b.tokens (record {
      kind = r.kind;
      start = r.start;
      end = r.end;
      trivia = record {
        leading_start = b.leading_start;
        trailing_start = trailing_start;
        trailing_end = b.trivia.count;
      };
    });
    leading_start = b.trivia.count;
  }

  -- A round of the outer loop, with the rounds that follow it.
  unfoldable pub token_round : Context → (Build → Outcome Build) → RawToken × Build → Outcome Build
  unfolding trailing_loop append_token append_trivia is_trivia kind_eq
  token_round ctx onward (r, b) =
      if is_trivia r.kind
      then onward (append_trivia r b)
      else if kind_eq r.kind Kind.eof
      then done (append_token r b.trivia.count b)
      else trailing_loop (length b.scanner.src + 1) ctx b >>= λ c.
          onward (append_token r b.trivia.count c)

  -- The outer loop.
  unfoldable pub token_loop : ℕ → Context → Build → Outcome Build
  unfolding take_raw token_round
  token_loop zero ctx b = out_of_fuel
  token_loop (suc fuel) ctx b = take_raw ctx b.pending b >>= token_round ctx (token_loop fuel ctx)

  abbrev pub new_build : Bytes → Build
  new_build src = record {
    scanner = new_scanner src;
    pending = none;
    leading_start = 0;
    steps = 0;
    tokens = empty_builder;
    trivia = empty_builder;
  }

  -- `buildTokensWithContext`: one round for each raw token is enough.
  unfoldable pub build_tokens : Context → Bytes → Outcome Build
  unfolding token_loop
  build_tokens ctx src = token_loop (length src + 1) ctx (new_build src)

  -- `tokens.finish(trivia.finish())`
  unfoldable pub finish_tokens : Build → Option (List Token)
  unfolding finish each resolve
  finish_tokens b =
      each (resolve (finish pools.trivia blank_trivia b.trivia))
        (finish pools.built blank_built b.tokens)

  -- `TokenizeContext`: the context is asked before the first step, too.
  unfoldable pub tokenize_context : Context → Bytes → Outcome (List Token)
  unfolding build_tokens finish_tokens
  tokenize_context ctx src =
      if ctx.at_start
      then cancelled
      else build_tokens (record ctx { cancellable = true }) src >>= λ b. returned (finish_tokens b)

  -- `Tokenize`, which is not cancellable.
  unfoldable pub tokenize : Bytes → Outcome (List Token)
  unfolding build_tokens finish_tokens
  tokenize src =
      build_tokens (record { at_start = false; cancellable = false; err = λ _. false }) src >>= λ b.
      returned (finish_tokens b)
