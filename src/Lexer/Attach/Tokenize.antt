-- ===== src/Lexer/Attach/Tokenize.antt =====
-- `Tokenize` and `TokenizeContext`.
use pawn_parser.Prelude.{
  ◌∙◌, sym, ap, map, true, ◌⊎◌, inl, inr, ◌<◌, ℕ, zero, suc, ◌+◌, ◌≤◌, ◌≡◌, refl, false, List, some,
  [], ◌∷◌, ◌++◌, Bytes, Option, arith, length, if_cases,
}
use pawn_parser.Token.Kind.{Kind, kind_eq}
use pawn_parser.Token.Keyword.{is_trivia}
use pawn_parser.Token.Types.{Trivia, Token}
use pawn_parser.Lexer.Scanner.{RawToken, Scanner}
use pawn_parser.Lexer.Raw.{scan_all, raw_tokens}
use pawn_parser.Lexer.Raw.Tiling.{span, raw_tokens_spans}
use pawn_parser.Lexer.Builder.Contents.{finish-contents}
use pawn_parser.Lexer.Attach.{
  tokenize_context, Context, BlockPools, Build, Outcome, done, cancelled, panicked, returned,
  out_of_fuel, ◌>>=◌, to_trivia, take_raw, append_trivia, trailing_loop, append_token, token_round,
  token_loop, new_build, build_tokens, blank_built, blank_trivia, finish_tokens, tokenize,
}
use pawn_parser.Lexer.Attach.Feeds.{feed, Holds, fresh, kept, scan_all-Feeds, length-scan_all}
use pawn_parser.Lexer.Attach.Relation.{Attached-spread, spread_all, Attached-unique, Attached}
use pawn_parser.Lexer.Attach.Loop.{
  Ends, Ends-bind, Ends-map, Cancels, Took, take_raw-Ends, After-goes,
}
use pawn_parser.Lexer.Attach.Trail.{Trailed, trailing_loop-Ends}
use pawn_parser.Lexer.Attach.Result.{
  Ready, Built, trivia_so_far, Trailing-length, last-Built, lead-Ready, lead-Built, token-Ready,
  token-Built,
}

Holds-length :
    {o : Option RawToken} {s : Scanner} {rs : List RawToken} → Holds o s rs → 0 < length rs
Holds-length (fresh (feed a)) = omega arith
Holds-length (kept a) = omega arith

module _ (pools : BlockPools) (ctx : Context) where
  abbrev Goal : Build → List Trivia → List RawToken → Outcome Build → Type 0
  Goal b leading rs = Ends (Cancels ctx) (Built b leading rs)

  token_round-Ends :
      (fuel : ℕ) (b : Build) (leading : List Trivia) (rs : List RawToken) (p : RawToken × Build)
      → Ready b leading rs
      → length rs ≤ suc fuel
      → Took b rs p
      → ((c : Build) (more : List Trivia) (rest : List RawToken)
          → Ready c more rest
          → length rest ≤ fuel
          → Goal c more rest (token_loop pools fuel ctx c))
      → Goal b leading rs (token_round pools ctx (token_loop pools fuel ctx) p)
  unfolding token_round
  token_round-Ends fuel b leading rs (r, c) w h t onward =
      if_cases (Goal b leading rs) (is_trivia r.kind) _ _
        (λ tr.
          Ends-map (Cancels ctx) _ (Built b leading rs) _
            (onward (append_trivia pools r c) (leading ++ (to_trivia r ∷ [])) t.rest
              (lead-Ready pools ctx b leading rs r c w t tr) (omega (arith, ap length t.splits)))
            (lead-Built pools ctx b leading rs r c w t tr))
        (λ tr.
          if_cases (Goal b leading rs) (kind_eq r.kind Kind.eof) _ _
            (λ e. last-Built pools ctx b leading rs r c w t tr e)
            (λ ne.
              Ends-bind (Cancels ctx) (Trailed c t.rest) (Built b leading rs)
                (trailing_loop pools (length c.scanner.src + 1) ctx c) _
                (trailing_loop-Ends pools ctx (length c.scanner.src + 1) c t.rest t.none_pending
                  (After-goes t.after ne) (trivia_so_far pools ctx w t).0
                  (omega (arith, w.room, ap length t.splits, ap length t.same_src)))
                (λ d q.
                  Ends-map (Cancels ctx) _ (Built b leading rs) _
                    (onward (append_token pools r c.trivia.count d) [] q.rest
                      (token-Ready pools ctx b leading rs r c d w t q)
                      (omega (arith, ap length t.splits, Trailing-length q.splits)))
                    (token-Built pools ctx b leading rs r c d w t tr ne q))))

  token_loop-Ends :
      (fuel : ℕ) (b : Build) (leading : List Trivia) (rs : List RawToken)
      → Ready b leading rs
      → length rs ≤ fuel
      → Goal b leading rs (token_loop pools fuel ctx b)
  unfolding token_loop
  token_loop-Ends zero b leading rs w h = absurd (omega (arith, Holds-length w.holds))
  token_loop-Ends (suc fuel) b leading rs w h =
      Ends-bind (Cancels ctx) (Took b rs) (Built b leading rs) (take_raw ctx b.pending b) _
        (take_raw-Ends ctx b w.holds)
        (λ p t. token_round-Ends fuel b leading rs p w h t (token_loop-Ends fuel))

  new_build-Ready : (src : Bytes) → Ready (new_build pools src) [] (scan_all src)
  new_build-Ready src = record {
    holds = fresh (scan_all-Feeds src);
    token_builder = (refl, refl);
    trivia_builder = (refl, refl);
    before = [];
    trivia_is = refl;
    leading_is = refl;
    room = length-scan_all src;
  }

  -- The tokens that a finished run yields.
  abbrev pub Tokens : Bytes → Build → Type 0
  Tokens src d =
      (ts : List Token) × (finish_tokens pools d ≡ some ts) × Attached [] (scan_all src) ts

  build_tokens-Ends : (src : Bytes) → Ends (Cancels ctx) (Tokens src) (build_tokens pools ctx src)
  unfolding build_tokens finish_tokens
  build_tokens-Ends src =
      Ends-map (Cancels ctx) (Built (new_build pools src) [] (scan_all src)) _ _
        (token_loop-Ends (length src + 1) (new_build pools src) [] (scan_all src)
          (new_build-Ready src) (length-scan_all src))
        (λ d k.
          rw
            (
              finish-contents pools.trivia blank_trivia d.trivia k.trivia_builder,
              finish-contents pools.built blank_built d.tokens k.token_builder,
              k.tokens_is,
              k.resolves,
            )
            (k.tokens, refl, k.attached))

-- A run that cannot be cancelled yields its tokens.
Ends-done :
    {A : Type 0} {C : Type 0} {P : A → Type 0} (m : Outcome A)
    → ¬ C
    → Ends C P m
    → (a : A) × (m ≡ done a) × P a
Ends-done (done a) n h = (a, refl, h)
Ends-done cancelled n h = absurd (n h)
Ends-done panicked n h = absurd h
Ends-done out_of_fuel n h = absurd h

Ends-weaken : {A C D : Type 0} (P : A → Type 0) (m : Outcome A) → (C → D) → Ends C P m → Ends D P m
Ends-weaken P (done a) n h = h
Ends-weaken P cancelled n h = n h
Ends-weaken P panicked n h = h
Ends-weaken P out_of_fuel n h = h

abbrev never : Context
never = record { at_start = false; cancellable = false; err = λ _. false }

module _ (pools : BlockPools) where
  -- `Tokenize` ends with tokens, which are the raw tokens of the source with each piece of trivia
  -- attached: to the token behind which it stands with no token and no earlier newline between
  -- them, or else to the next token.
  pub tokenize-Attached :
      (src : Bytes)
      → (ts : List Token) × (tokenize pools src ≡ done ts) × Attached [] (scan_all src) ts
  unfolding tokenize
  tokenize-Attached src =
      let (d, e, (ts, f, a)) =
        Ends-done (build_tokens pools never src) (λ c. cc (c.0))
          (build_tokens-Ends pools never src) in
      (ts, ap (λ m. m >>= λ b. returned (finish_tokens pools b)) e ∙ ap returned f, a)

  -- `Tokenize` keeps every raw token: its tokens, each between its leading and its trailing trivia,
  -- are the tokens of `RawTokens` in the same order.
  pub tokenize-spread :
      (src : Bytes)
      → (ts : List Token) × (tokenize pools src ≡ done ts)
        × (spread_all ts ≡ map span (raw_tokens src))
  tokenize-spread src =
      let (ts, e, a) = tokenize-Attached src in
      (ts, e, Attached-spread a ∙ sym (raw_tokens_spans src))

  -- `TokenizeContext` returns the tokens of `Tokenize`, or it is cancelled, and then the context
  -- answered with an error.
  pub tokenize_context-Ends :
      (ctx : Context) (src : Bytes)
      → Ends
          ((ctx.at_start ≡ true) ⊎ ((n : ℕ) × (ctx.err n ≡ true)))
          (λ ts. tokenize pools src ≡ done ts)
          (tokenize_context pools ctx src)
  unfolding tokenize_context
  tokenize_context-Ends ctx src = if_cases (Ends C P) ctx.at_start _ _ inl (λ _.
      Ends-weaken P (build_tokens pools watched src >>= λ b. returned (finish_tokens pools b))
        (λ c. inr (c.1, c.2))
        (Ends-bind (Cancels watched) (Tokens pools watched src) P (build_tokens pools watched src) _
          (build_tokens-Ends pools watched src)
          (λ d (us, f, a).
            let (ts, e, a') = tokenize-Attached src in rw f (e ∙ ap done (Attached-unique a' a)))))
    where
      C : Type 0
      C = (ctx.at_start ≡ true) ⊎ ((n : ℕ) × (ctx.err n ≡ true))

      P : List Token → Type 0
      P ts = tokenize pools src ≡ done ts

      watched : Context
      watched = record ctx { cancellable = true }
