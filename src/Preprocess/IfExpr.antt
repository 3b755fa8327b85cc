-- ===== src/Preprocess/IfExpr.antt =====
-- preprocess/ifexpr.go: the evaluator of the conditions of `#if`. A result is a value with the state
-- behind it; `none` stands for a run out of fuel and belongs to the model only.
pub mod Ends
pub mod Progress
pub mod Depth
use pawn_parser.Prelude.{
  ℕ, zero, suc, ◌+◌, Bool, true, false, not, ◌&&◌, ◌||◌, List, [], ◌∷◌, ◌++◌, Bytes, bytes_eq,
  Option, none, some, leb, ◌==◌, if◌then◌else◌, length,
}
use pawn_parser.Token.Kind.{Kind, kind_eq}
use pawn_parser.Lexer.Attach.{BlockPools}
use pawn_parser.Preprocess.Int64.{
  bool_to_int, less, plus, minus, times, quotient, remainder, negate, complement, shift_left,
  shift_right, bits_or, bits_xor, bits_and,
}
use pawn_parser.Preprocess.Values.{parse_int_literal, parse_char_literal}
use pawn_parser.Preprocess.Macros.{
  Ptok, MacroKind, Macro, MacroTable, find, is_some, lookup_macro, is_defined, tokenize_body,
}
use pawn_parser.Preprocess.Eval.{
  Declarations, Env, Eval, Result, ◌>>=◌, eof_token, fail, token_at, guarded, apply, is_among,
  applied,
}

module _ (toks : List Ptok) where
  -- `cur`
  abbrev pub cur : Eval → Ptok
  cur s = token_at toks s.pos

  -- `at`
  abbrev pub at_kind : Eval → Kind → Bool
  at_kind s kind = kind_eq (cur s).kind kind

  -- `advance`, which stays at the end
  unfoldable pub step : Eval → Eval
  step s = if leb (length toks) s.pos then s else record s { pos = s.pos + 1 }

  -- The loop of `parseBinary`, with a round for each operator.
  unfoldable pub binary_loop : ℕ → (Eval → Result) → List Kind → ℕ × Eval → Result
  unfolding is_among step apply
  binary_loop zero next ops (left, s) = none
  binary_loop (suc size) next ops (left, s) = elim (is_among ops (cur s).kind) [
    | true ↦ next (step s) >>= λ (right, t).
        binary_loop size next ops (applied (apply (cur s).kind left right) t)
    | false ↦ some (left, s)
  ]

  -- `parseBinary`
  unfoldable pub parse_binary : ℕ → (Eval → Result) → List Kind → Eval → Result
  unfolding binary_loop
  parse_binary size next ops s = next s >>= binary_loop size next ops

  -- The levels from the loosest to the tightest, above `parseUnary`.
  abbrev pub levels : List (List Kind)
  levels =
      (Kind.or_or ∷ [])
      ∷ (Kind.and_and ∷ [])
      ∷ (Kind.pipe ∷ [])
      ∷ (Kind.caret ∷ [])
      ∷ (Kind.amp ∷ [])
      ∷ (Kind.eq ∷ Kind.not_eq ∷ [])
      ∷ (Kind.lt ∷ Kind.gt ∷ Kind.lt_eq ∷ Kind.gt_eq ∷ [])
      ∷ (Kind.shl ∷ Kind.shr ∷ [])
      ∷ (Kind.plus ∷ Kind.minus ∷ [])
      ∷ (Kind.star ∷ Kind.slash ∷ Kind.percent ∷ [])
      ∷ []

  unfoldable pub parse_level : ℕ → List (List Kind) → (Eval → Result) → Eval → Result
  unfolding parse_binary
  parse_level size [] unary s = unary s
  parse_level size (ops ∷ tighter) unary s =
      parse_binary size (parse_level size tighter unary) ops s

  -- `parseLogicalOr`: the operators of a level are at most as many as the tokens.
  unfoldable pub parse_logical_or : (Eval → Result) → Eval → Result
  unfolding parse_level
  parse_logical_or unary s = parse_level (length toks + 1) levels unary s

  -- The closing parenthesis behind a value.
  unfoldable pub close : Bool → ℕ → Eval → Result
  unfolding step kind_eq
  close false v s = some (v, s)
  close true v s = if at_kind s Kind.rparen then some (v, step s) else fail s

  -- The text of a name or a number, if there is one.
  unfoldable pub selector_at : Eval → Bytes × Eval
  unfolding step kind_eq
  selector_at s =
      if at_kind s Kind.identifier || at_kind s Kind.int_literal
      then ((cur s).text, step s)
      else ([], s)

  -- The selectors of `parseSizeof`; a missing bracket is absent.
  unfoldable pub selectors_loop : ℕ → List Bytes → Eval → Option (Option (List Bytes) × Eval)
  unfolding selector_at step kind_eq
  selectors_loop zero found s = none
  selectors_loop (suc size) found s = elim (at_kind s Kind.l_bracket) [
    | true ↦
        let (selector, t) = selector_at (step s) in
        elim (at_kind t Kind.r_bracket) [
          | true ↦ selectors_loop size (found ++ (selector ∷ [])) (step t)
          | false ↦ some (none, t)
        ]
    | false ↦ some (some found, s)
  ]

  module _ (env : Env) (ident : Bytes → Option (Option ℕ)) where
    -- The end of `parseSizeof`: the closing parenthesis comes before the lookup.
    unfoldable pub sized : Bool → Bytes → Option (List Bytes) × Eval → Result
    unfolding step kind_eq
    sized parenthesized name (none, s) = fail s
    sized false name (some selectors, s) =
        some (applied (env.declarations.size_of name selectors) s)
    sized true name (some selectors, s) =
        if at_kind s Kind.rparen
        then some (applied (env.declarations.size_of name selectors) (step s))
        else fail s

    unfoldable pub parse_sizeof : Eval → Result
    unfolding sized selectors_loop step kind_eq
    parse_sizeof s =
        let paren = at_kind s Kind.lparen in
        let t = if paren then step s else s in
        if at_kind t Kind.identifier
        then selectors_loop (length toks + 1) [] (step t) >>= sized paren (cur t).text
        else fail t

    unfoldable pub is_defined_name : Bytes → Bool
    unfolding is_defined find
    is_defined_name name =
        is_defined env.macros name
        || is_some (find name env.symbols)
        || env.declarations.defined name

    unfoldable pub parse_defined : Eval → Result
    unfolding close step is_defined_name kind_eq
    parse_defined s =
        let paren = at_kind s Kind.lparen in
        let t = if paren then step s else s in
        if at_kind t Kind.identifier
        then close paren (bool_to_int (is_defined_name (cur t).text)) (step t)
        else fail t

    -- The value of a name, or a failure.
    unfoldable pub parse_ident : Bytes → Eval → Result
    parse_ident name s = ident name >>= λ v. some (applied v s)

    -- `parsePrimary`, and `parseUnary` on fuel: a round for each token is enough.
    unfoldable pub parse_primary : (Eval → Result) → Kind → Eval → Result
    unfolding parse_logical_or close parse_defined parse_ident step parse_int_literal
        parse_char_literal
    parse_primary unary Kind.int_literal s = some (parse_int_literal (cur s).text, step s)
    parse_primary unary Kind.char_literal s = some (parse_char_literal (cur s).text, step s)
    parse_primary unary Kind.lparen s = parse_logical_or unary (step s) >>= λ (v, t). close true v t
    parse_primary unary Kind.kw_defined s = parse_defined (step s)
    parse_primary unary Kind.identifier s = parse_ident (cur s).text (step s)
    parse_primary unary _ s = fail s

    unfoldable pub unary_switch : (Eval → Result) → Kind → Eval → Result
    unfolding parse_sizeof parse_primary step
    unary_switch unary Kind.bang s = unary (step s) >>= λ (v, t). some (bool_to_int (v == 0), t)
    unary_switch unary Kind.minus s = unary (step s) >>= λ (v, t). some (negate v, t)
    unary_switch unary Kind.plus s = unary (step s)
    unary_switch unary Kind.tilde s = unary (step s) >>= λ (v, t). some (complement v, t)
    unary_switch unary Kind.kw_sizeof s = parse_sizeof (step s)
    unary_switch unary kind s = parse_primary unary kind s

    unfoldable pub parse_unary : ℕ → Eval → Result
    unfolding unary_switch
    parse_unary zero s = none
    parse_unary (suc fuel) s = unary_switch (parse_unary fuel) (cur s).kind s

    -- An expression from the first token, which must take them all; an unknown value is absent.
    unfoldable pub eval_all : Option (Option ℕ)
    unfolding parse_logical_or parse_unary
    eval_all =
        parse_logical_or (parse_unary (length toks + 2)) (record { pos = 0; unknown = false })
        >>= λ (v, s). some (if s.unknown || not (s.pos == length toks) then none else some v)

-- What a name stands for: the body of a macro, the text of a symbol, or a constant.
unfoldable pub body_of : Env → Bytes → Option (List Ptok)
unfolding lookup_macro find tokenize_body
body_of env name = object (lookup_macro env.macros name)
  where
    declared : Option Bytes → Option (List Ptok)
    declared (some value) = some (tokenize_body env.pools value)
    declared none = env.declarations.constant name

    object : Option Macro → Option (List Ptok)
    object none = declared (find name env.symbols)
    object (some m) = by_kind m.kind
      where
        by_kind : MacroKind → Option (List Ptok)
        by_kind MacroKind.object_like = some m.body
        by_kind MacroKind.function_like = declared (find name env.symbols)

-- `evalIdent`: a name under its own guard or with no body is 0. The fuel counts the bodies that are
-- entered.
unfoldable pub eval_ident : ℕ → Env → List Bytes → Bytes → Option (Option ℕ)
unfolding eval_all body_of guarded
eval_ident zero env guard name = none
eval_ident (suc depth) env guard name = elim (guarded guard name) [
  | true ↦ some (some 0)
  | false ↦ elim (body_of env name) [
    | none ↦ some (some 0)
    | some body ↦ eval_all body env (eval_ident depth env (name ∷ guard))
  ]
]

-- The end of `evalCondition`, for the tokens that the expansion of the condition gives.
unfoldable pub eval_condition : ℕ → Env → List Ptok → Option (Option ℕ)
unfolding eval_all eval_ident
eval_condition depth env toks = eval_all toks env (eval_ident depth env [])
