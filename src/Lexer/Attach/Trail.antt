-- ===== src/Lexer/Attach/Trail.antt =====
-- The inner loop collects the trivia that trails a token.
use pawn_parser.Prelude.{
  if_cases, ℕ, zero, suc, ◌≤◌, ◌≡◌, refl, sym, ap, ◌∙◌, true, false, List, [], ◌∷◌, ◌++◌, none,
  some, arith, length, append_assoc, append-nil,
}
use pawn_parser.Token.Kind.{Kind, kind_eq}
use pawn_parser.Token.Keyword.{is_trivia}
use pawn_parser.Token.Types.{Trivia}
use pawn_parser.Lexer.Scanner.{RawToken, Scanner}
use pawn_parser.Lexer.Builder.Contents.{IsBuilder, contents, append-Appends}
use pawn_parser.Lexer.Attach.{
  Context, BlockPools, Build, Outcome, to_trivia, read_raw, append_trivia, trailing_loop,
  trailing_round, blank_trivia,
}
use pawn_parser.Lexer.Attach.Feeds.{Feeds, feed, Holds, fresh, kept}
use pawn_parser.Lexer.Attach.Relation.{Trailing, stop, newline, more}
use pawn_parser.Lexer.Attach.Loop.{
  Ends, Ends-bind, Ends-map, Cancels, Took, read_raw-Ends, After-goes, trivia-not-eof,
}

-- What the inner loop has done: `rs` is split at the end of the trailing trivia, which the trivia
-- builder has taken, and the token that ended it, if one did, is pending.
pub record Trailed (b : Build) (rs : List RawToken) (d : Build) : Type 0 where
  pub trailing : List Trivia
  pub rest : List RawToken
  pub splits : Trailing rs trailing rest
  pub holds : Holds d.pending d.scanner rest
  pub trivia_builder : IsBuilder d.trivia
  pub trivia_is : contents d.trivia ≡ contents b.trivia ++ trailing
  pub same_tokens : d.tokens ≡ b.tokens
  pub same_leading : d.leading_start ≡ b.leading_start
  pub same_src : d.scanner.src ≡ b.scanner.src

module _ (pools : BlockPools) (ctx : Context) where
  -- The builder behind an append of the trivia just read.
  pub trivia-Appends :
      (b : Build) (rs : List RawToken) (r : RawToken) (c : Build)
      → IsBuilder b.trivia
      → Took b rs (r, c)
      → IsBuilder (append_trivia pools r c).trivia
        × (contents (append_trivia pools r c).trivia ≡ contents b.trivia ++ (to_trivia r ∷ []))
  unfolding append_trivia
  trivia-Appends b rs r c w t = rw t.same_trivia (
      let a = append-Appends pools.trivia blank_trivia b.trivia (to_trivia r) w in
      (a.filled, a.holds))

  pub append_trivia_same :
      (r : RawToken) (c : Build)
      → ((append_trivia pools r c).pending ≡ c.pending)
        × ((append_trivia pools r c).scanner ≡ c.scanner)
        × ((append_trivia pools r c).tokens ≡ c.tokens)
        × ((append_trivia pools r c).leading_start ≡ c.leading_start)
  unfolding append_trivia
  append_trivia_same r c = (refl, refl, refl, refl)

  newline-Trailed :
      (b : Build) (rs : List RawToken) (r : RawToken) (c : Build)
      → IsBuilder b.trivia
      → Took b rs (r, c)
      → is_trivia r.kind ≡ true
      → kind_eq r.kind Kind.newline ≡ true
      → Trailed b rs (append_trivia pools r c)
  newline-Trailed b rs r c w t tr nl = record {
    trailing = to_trivia r ∷ [];
    rest = t.rest;
    splits = rw t.splits (newline tr nl);
    holds =
        rw ((append_trivia_same r c).0, (append_trivia_same r c).1, t.none_pending)
          (fresh (After-goes t.after (trivia-not-eof r.kind tr)));
    trivia_builder = (trivia-Appends b rs r c w t).0;
    trivia_is = (trivia-Appends b rs r c w t).1;
    same_tokens = (append_trivia_same r c).2 ∙ t.same_tokens;
    same_leading = (append_trivia_same r c).3 ∙ t.same_leading;
    same_src = ap (λ (x : Scanner). x.src) (append_trivia_same r c).1 ∙ t.same_src;
  }

  more-Trailed :
      (b : Build) (rs : List RawToken) (r : RawToken) (c : Build)
      → IsBuilder b.trivia
      → (t : Took b rs (r, c)) → is_trivia r.kind ≡ true
      → kind_eq r.kind Kind.newline ≡ false
      → (d : Build) → (q : Trailed (append_trivia pools r c) t.rest d) → Trailed b rs d
  more-Trailed b rs r c w t tr nl d q = record {
    trailing = to_trivia r ∷ q.trailing;
    rest = q.rest;
    splits = rw t.splits (more tr nl q.splits);
    holds = q.holds;
    trivia_builder = q.trivia_builder;
    trivia_is =
        q.trivia_is
        ∙ ap (λ xs. xs ++ q.trailing) (trivia-Appends b rs r c w t).1
        ∙ append_assoc (contents b.trivia) (to_trivia r ∷ []) q.trailing;
    same_tokens = q.same_tokens ∙ (append_trivia_same r c).2 ∙ t.same_tokens;
    same_leading = q.same_leading ∙ (append_trivia_same r c).3 ∙ t.same_leading;
    same_src = q.same_src ∙ ap (λ (x : Scanner). x.src) (append_trivia_same r c).1 ∙ t.same_src;
  }

  stop-Trailed :
      (b : Build) (rs : List RawToken) (r : RawToken) (c : Build)
      → IsBuilder b.trivia
      → Took b rs (r, c)
      → is_trivia r.kind ≡ false
      → Trailed b rs (record c { pending = some r })
  stop-Trailed b rs r c w t tr = record {
    trailing = [];
    rest = r ∷ t.rest;
    splits = rw t.splits (stop tr);
    holds = kept t.after;
    trivia_builder = rw t.same_trivia w;
    trivia_is = ap contents t.same_trivia ∙ sym (append-nil (contents b.trivia));
    same_tokens = t.same_tokens;
    same_leading = t.same_leading;
    same_src = t.same_src;
  }

  trailing_round-Ends :
      (fuel : ℕ) (b : Build) (rs : List RawToken) (p : RawToken × Build)
      → IsBuilder b.trivia
      → length rs ≤ suc fuel
      → Took b rs p
      → ((c : Build) (rest : List RawToken)
          → c.pending ≡ none
          → Feeds c.scanner rest
          → IsBuilder c.trivia
          → length rest ≤ fuel
          → Ends (Cancels ctx) (Trailed c rest) (trailing_loop pools fuel ctx c))
      → Ends (Cancels ctx) (Trailed b rs) (trailing_round pools (trailing_loop pools fuel ctx) p)
  unfolding trailing_round
  trailing_round-Ends fuel b rs (r, c) w h t onward =
      if_cases P (is_trivia r.kind) _ _
        (λ tr.
          if_cases P (kind_eq r.kind Kind.newline) _ _ (λ nl. newline-Trailed b rs r c w t tr nl)
            (λ nl.
              Ends-map (Cancels ctx) (Trailed (append_trivia pools r c) t.rest) (Trailed b rs) _
                (onward (append_trivia pools r c) t.rest
                  ((append_trivia_same r c).0 ∙ t.none_pending)
                  (rw (append_trivia_same r c).1 (After-goes t.after (trivia-not-eof r.kind tr)))
                  (trivia-Appends b rs r c w t).0 (omega (arith, ap length t.splits)))
                (more-Trailed b rs r c w t tr nl)))
        (λ tr. stop-Trailed b rs r c w t tr)
    where
      P : Outcome Build → Type 0
      P = Ends (Cancels ctx) (Trailed b rs)

  pub trailing_loop-Ends :
      (fuel : ℕ) (b : Build) (rs : List RawToken)
      → b.pending ≡ none
      → Feeds b.scanner rs
      → IsBuilder b.trivia
      → length rs ≤ fuel
      → Ends (Cancels ctx) (Trailed b rs) (trailing_loop pools fuel ctx b)
  unfolding trailing_loop
  trailing_loop-Ends zero b rs e (feed a) w h = absurd (omega arith)
  trailing_loop-Ends (suc fuel) b rs e f w h =
      Ends-bind (Cancels ctx) (Took b rs) (Trailed b rs) (read_raw ctx b) _
        (read_raw-Ends ctx b e f)
        (λ p t. trailing_round-Ends fuel b rs p w h t (trailing_loop-Ends fuel))
