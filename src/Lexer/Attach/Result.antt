-- ===== src/Lexer/Attach/Result.antt =====
-- The outer loop builds the tokens that the relation gives.
use pawn_parser.Prelude.{
  ap₂, some, ℕ, ◌+◌, ◌≤◌, ◌≡◌, refl, sym, ap, ◌∙◌, true, false, List, [], ◌∷◌, ◌++◌, arith, length,
  length-append, append_assoc, append-nil,
}
use pawn_parser.Token.Kind.{Kind, kind_eq}
use pawn_parser.Token.Keyword.{is_trivia}
use pawn_parser.Token.Types.{Trivia, Token}
use pawn_parser.Lexer.Scanner.{RawToken, Scanner}
use pawn_parser.Lexer.Builder.{Builder}
use pawn_parser.Lexer.Builder.Contents.{IsBuilder, contents, append-Appends, count-contents}
use pawn_parser.Lexer.Attach.{
  BuiltToken, Context, BlockPools, Build, to_trivia, append_trivia, append_token, resolve,
  blank_built, token_from_slices,
}
use pawn_parser.Token.Compact.{each}
use pawn_parser.Lexer.Attach.Feeds.{Holds, fresh}
use pawn_parser.Lexer.Attach.Relation.{
  token_with, Trailing, stop, newline, more, Attached, lead, last, token,
}
use pawn_parser.Lexer.Attach.Slices.{trivia_slice_between}
use pawn_parser.Lexer.Attach.Loop.{Took, After-goes, After-ends, trivia-not-eof}
use pawn_parser.Lexer.Attach.Trail.{Trailed, trivia-Appends, append_trivia_same}

-- Between two tokens: `leading` is the trivia read since the last of them.
pub record Ready (b : Build) (leading : List Trivia) (rs : List RawToken) : Type 0 where
  pub holds : Holds b.pending b.scanner rs
  pub token_builder : IsBuilder b.tokens
  pub trivia_builder : IsBuilder b.trivia
  pub before : List Trivia
  pub trivia_is : contents b.trivia ≡ before ++ leading
  pub leading_is : b.leading_start ≡ length before
  pub room : length rs ≤ length b.scanner.src + 1

-- What the rest of the loop has added, and that it resolves to the tokens of the relation.
pub record Built (b : Build) (leading : List Trivia) (rs : List RawToken) (d : Build) : Type 0 where
  pub tokens : List Token
  pub attached : Attached leading rs tokens
  pub later : List Trivia
  pub trivia_builder : IsBuilder d.trivia
  pub trivia_is : contents d.trivia ≡ contents b.trivia ++ later
  pub built : List BuiltToken
  pub token_builder : IsBuilder d.tokens
  pub tokens_is : contents d.tokens ≡ contents b.tokens ++ built
  pub resolves : each (resolve (contents d.trivia)) built ≡ some tokens

abbrev built_token : RawToken → ℕ → ℕ → ℕ → BuiltToken
built_token r i j k = record {
  kind = r.kind;
  start = r.start;
  end = r.end;
  trivia = record { leading_start = i; trailing_start = j; trailing_end = k };
}

-- A token whose ranges cut out the two parts of the trivia.
resolve_between :
    (all before leading trailing later : List Trivia) (r : RawToken) {i j k : ℕ}
    → all ≡ before ++ (leading ++ (trailing ++ later))
    → i ≡ length before
    → j ≡ length before + length leading
    → k ≡ length before + length leading + length trailing
    → resolve all (built_token r i j k) ≡ some (token_with r leading trailing)
unfolding resolve
resolve_between all before leading trailing later r {i} {j} {k} s e f g =
    ap₂ (token_from_slices (built_token r i j k))
      (trivia_slice_between all before leading (trailing ++ later) s e f)
      (trivia_slice_between all (before ++ leading) trailing later {i = j} {j = k}
        (s ∙ sym (append_assoc before leading (trailing ++ later)))
        (omega (arith, length-append before leading)) (omega (arith, length-append before leading)))

each-resolve :
    (all : List Trivia) (t : BuiltToken) (x : Token) (bs : List BuiltToken) (xs : List Token)
    → resolve all t ≡ some x
    → each (resolve all) bs ≡ some xs
    → each (resolve all) (t ∷ bs) ≡ some (x ∷ xs)
unfolding each
each-resolve all t x bs xs e f = rw (e, f) refl

pub Trailing-length :
    {rs rest : List RawToken} {ts : List Trivia} → Trailing rs ts rest → length rest ≤ length rs
Trailing-length (stop h) = omega arith
Trailing-length (newline h n) = omega arith
Trailing-length (more h n t) = omega (arith, Trailing-length t)

module _ (pools : BlockPools) (ctx : Context) where
  append_token_same :
      (r : RawToken) (j : ℕ) (c : Build)
      → ((append_token pools r j c).pending ≡ c.pending)
        × ((append_token pools r j c).scanner ≡ c.scanner)
        × ((append_token pools r j c).trivia ≡ c.trivia)
        × ((append_token pools r j c).leading_start ≡ c.trivia.count)
  unfolding append_token
  append_token_same r j c = (refl, refl, refl, refl)

  token-Appends :
      (r : RawToken) (j : ℕ) (c : Build)
      → IsBuilder c.tokens
      → IsBuilder (append_token pools r j c).tokens
        × (contents (append_token pools r j c).tokens
            ≡ contents c.tokens ++ (built_token r c.leading_start j c.trivia.count ∷ []))
  unfolding append_token
  token-Appends r j c w =
      let a =
        append-Appends pools.built blank_built c.tokens
          (built_token r c.leading_start j c.trivia.count) w in
      (a.filled, a.holds)

  -- All the trivia so far, when `r` has been taken.
  pub trivia_so_far :
      {b : Build} {leading : List Trivia} {rs : List RawToken} {r : RawToken} {c : Build}
      → (w : Ready b leading rs) → Took b rs (r, c)
      → IsBuilder c.trivia
        × (contents c.trivia ≡ w.before ++ leading)
        × (c.trivia.count ≡ length w.before + length leading)
        × (c.leading_start ≡ length w.before)
        × IsBuilder c.tokens
  trivia_so_far {b} {leading} w t =
      rw (t.same_trivia, t.same_tokens, t.same_leading)
        (
          w.trivia_builder,
          w.trivia_is,
          omega (
            arith,
            count-contents b.trivia w.trivia_builder,
            ap length w.trivia_is,
            length-append w.before leading,
          ),
          w.leading_is,
          w.token_builder,
        )

  -- The token with no trailing trivia at the end of the file.
  pub last-Built :
      (b : Build) (leading : List Trivia) (rs : List RawToken) (r : RawToken) (c : Build)
      → Ready b leading rs
      → Took b rs (r, c)
      → is_trivia r.kind ≡ false
      → kind_eq r.kind Kind.eof ≡ true
      → Built b leading rs (append_token pools r c.trivia.count c)
  unfolding each
  last-Built b leading rs r c w t tr e =
      let (tb, ti, count, start, kb) = trivia_so_far w t in
      let (_, _, same, _) = append_token_same r c.trivia.count c in
      let (filled, holds) = token-Appends r c.trivia.count c kb in
      record {
        tokens = token_with r leading [] ∷ [];
        attached = rw (t.splits, After-ends t.after e) (last tr e);
        later = [];
        trivia_builder = rw same tb;
        trivia_is = ap contents (same ∙ t.same_trivia) ∙ sym (append-nil (contents b.trivia));
        built = built_token r c.leading_start c.trivia.count c.trivia.count ∷ [];
        token_builder = filled;
        tokens_is =
            holds
            ∙ ap
                (λ (x : Builder BuiltToken).
                  contents x ++ (built_token r c.leading_start c.trivia.count c.trivia.count ∷ []))
                t.same_tokens;
        resolves =
            each-resolve _ _ _ [] []
              (resolve_between _ w.before leading [] [] r
                (ap contents same ∙ ti ∙ ap (λ xs. w.before ++ xs) (sym (append-nil leading))) start
                count (omega arith))
              refl;
      }

  -- A piece of leading trivia.
  pub lead-Ready :
      (b : Build) (leading : List Trivia) (rs : List RawToken) (r : RawToken) (c : Build)
      → Ready b leading rs
      → (t : Took b rs (r, c)) → is_trivia r.kind ≡ true
      → Ready (append_trivia pools r c) (leading ++ (to_trivia r ∷ [])) t.rest
  lead-Ready b leading rs r c w t tr =
      let (p, sc, tk, ls) = append_trivia_same pools ctx r c in
      let (filled, holds) = trivia-Appends pools ctx b rs r c w.trivia_builder t in
      record {
        holds = rw (p, sc, t.none_pending) (fresh (After-goes t.after (trivia-not-eof r.kind tr)));
        token_builder = rw (tk, t.same_tokens) w.token_builder;
        trivia_builder = filled;
        before = w.before;
        trivia_is =
            holds
            ∙ ap (λ xs. xs ++ (to_trivia r ∷ [])) w.trivia_is
            ∙ append_assoc w.before leading (to_trivia r ∷ []);
        leading_is = ls ∙ t.same_leading ∙ w.leading_is;
        room = omega (
          arith,
          w.room,
          ap length t.splits,
          ap (λ (x : Scanner). length x.src) sc,
          ap length t.same_src,
        );
      }

  pub lead-Built :
      (b : Build) (leading : List Trivia) (rs : List RawToken) (r : RawToken) (c : Build)
      → Ready b leading rs
      → (t : Took b rs (r, c)) → is_trivia r.kind ≡ true
      → (d : Build) → Built (append_trivia pools r c) (leading ++ (to_trivia r ∷ [])) t.rest d
      → Built b leading rs d
  lead-Built b leading rs r c w t tr d q =
      let (_, _, tk, _) = append_trivia_same pools ctx r c in
      let (_, holds) = trivia-Appends pools ctx b rs r c w.trivia_builder t in
      record {
        tokens = q.tokens;
        attached = rw t.splits (lead tr q.attached);
        later = to_trivia r ∷ q.later;
        trivia_builder = q.trivia_builder;
        trivia_is =
            q.trivia_is
            ∙ ap (λ xs. xs ++ q.later) holds
            ∙ append_assoc (contents b.trivia) (to_trivia r ∷ []) q.later;
        built = q.built;
        token_builder = q.token_builder;
        tokens_is =
            q.tokens_is
            ∙ ap (λ (x : Builder BuiltToken). contents x ++ q.built) (tk ∙ t.same_tokens);
        resolves = q.resolves;
      }

  -- A token with the trivia around it: `d` is behind its trailing trivia.
  pub token-Ready :
      (b : Build) (leading : List Trivia) (rs : List RawToken) (r : RawToken) (c d : Build)
      → Ready b leading rs
      → (t : Took b rs (r, c)) → (q : Trailed c t.rest d)
      → Ready (append_token pools r c.trivia.count d) [] q.rest
  token-Ready b leading rs r c d w t q =
      let (p, sc, tv, ls) = append_token_same r c.trivia.count d in
      let (_, _, _, _, kb) = trivia_so_far w t in
      record {
        holds = rw (p, sc) q.holds;
        token_builder = (token-Appends r c.trivia.count d (rw q.same_tokens kb)).0;
        trivia_builder = rw tv q.trivia_builder;
        before = contents d.trivia;
        trivia_is = ap contents tv ∙ sym (append-nil (contents d.trivia));
        leading_is = ls ∙ count-contents d.trivia q.trivia_builder;
        room = omega (
          arith,
          w.room,
          ap length t.splits,
          Trailing-length q.splits,
          ap (λ (x : Scanner). length x.src) sc,
          ap length q.same_src,
          ap length t.same_src,
        );
      }

  pub token-Built :
      (b : Build) (leading : List Trivia) (rs : List RawToken) (r : RawToken) (c d : Build)
      → Ready b leading rs
      → (t : Took b rs (r, c)) → is_trivia r.kind ≡ false
      → kind_eq r.kind Kind.eof ≡ false
      → (q : Trailed c t.rest d) → (z : Build)
      → Built (append_token pools r c.trivia.count d) [] q.rest z
      → Built b leading rs z
  token-Built b leading rs r c d w t tr ne q z k =
      let (_, _, tv, _) = append_token_same r c.trivia.count d in
      let (tb, ti, count, start, kb) = trivia_so_far w t in
      let (_, holds) = token-Appends r c.trivia.count d (rw q.same_tokens kb) in
      let all : contents z.trivia ≡ contents c.trivia ++ (q.trailing ++ k.later) =
        k.trivia_is
        ∙ ap (λ (x : Builder Trivia). contents x ++ k.later) tv
        ∙ ap (λ xs. xs ++ k.later) q.trivia_is
        ∙ append_assoc (contents c.trivia) q.trailing k.later in
      record {
        tokens = token_with r leading q.trailing ∷ k.tokens;
        attached = rw t.splits (token tr ne q.splits k.attached);
        later = q.trailing ++ k.later;
        trivia_builder = k.trivia_builder;
        trivia_is =
            all ∙ ap (λ (x : Builder Trivia). contents x ++ (q.trailing ++ k.later)) t.same_trivia;
        built = built_token r d.leading_start c.trivia.count d.trivia.count ∷ k.built;
        token_builder = k.token_builder;
        tokens_is =
            k.tokens_is
            ∙ ap (λ xs. xs ++ k.built) holds
            ∙ append_assoc (contents d.tokens) _ k.built
            ∙ ap
                (λ (x : Builder BuiltToken).
                  contents x
                  ++ (built_token r d.leading_start c.trivia.count d.trivia.count ∷ k.built))
                (q.same_tokens ∙ t.same_tokens);
        resolves =
            each-resolve _ _ _ k.built k.tokens
              (resolve_between (contents z.trivia) w.before leading q.trailing k.later r
                (all
                  ∙ ap (λ xs. xs ++ (q.trailing ++ k.later)) ti
                  ∙ append_assoc w.before leading (q.trailing ++ k.later))
                (q.same_leading ∙ start) count
                (omega (
                  arith,
                  count-contents d.trivia q.trivia_builder,
                  ap length q.trivia_is,
                  length-append (contents c.trivia) q.trailing,
                  ap length ti,
                  length-append w.before leading,
                )))
              k.resolves;
      }
