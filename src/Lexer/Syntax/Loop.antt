-- ===== src/Lexer/Syntax/Loop.antt =====
-- The loops of `buildSyntaxTokens` keep the flags of the trivia that the relation attaches.
use pawn_parser.Prelude.{
  ℕ, zero, suc, ◌≤◌, ◌≡◌, refl, sym, ap, ◌∙◌, List, [], ◌∷◌, ◌++◌, map, Option, none, some, arith,
  length, append_assoc, append-nil,
}
use pawn_parser.Token.Types.{Trivia, Token}
use pawn_parser.Token.Compact.{TriviaFlags, no_flags}
use pawn_parser.Lexer.Scanner.{RawToken, Scanner}
use pawn_parser.Lexer.Raw.{next_raw}
use pawn_parser.Lexer.Builder.{Builder, Pools, append}
use pawn_parser.Lexer.Builder.Contents.{IsBuilder, contents, append-Appends}
use pawn_parser.Lexer.Attach.Feeds.{Feeds, feed, After, Holds, fresh, kept}
use pawn_parser.Lexer.Attach.Relation.{
  raw_trivia, Trailing, stop, newline, more, Attached, lead, last, token,
}
use pawn_parser.Lexer.Attach.Loop.{After-goes, trivia-not-eof}
use pawn_parser.Lexer.Attach.Result.{Trailing-length}
use pawn_parser.Lexer.Syntax.{
  FlaggedToken, blank_flagged, flagged, taken, flags_round, flags_loop, syntax_round, syntax_loop,
}
use pawn_parser.Lexer.Syntax.Summary.{flags_of, flags_of-append}

-- The next raw token, as the loops take it.
abbrev Takes : Option RawToken → Scanner → RawToken → List RawToken → Type 0
Takes pending s r rs = (t : Scanner) × (taken pending s ≡ (r, t)) × After r t rs

taken-Takes :
    {pending : Option RawToken} {s : Scanner} {r : RawToken} {rs : List RawToken}
    → Holds pending s (r ∷ rs)
    → Takes pending s r rs
unfolding taken
taken-Takes {s} (fresh (feed a)) = ((next_raw s).1, refl, a)
taken-Takes {s} (kept a) = (s, refl, a)

-- What the inner loop ends with.
record Flagged (rest : List RawToken) (flags : TriviaFlags)
    (o : Option (TriviaFlags × Option RawToken × Scanner)) : Type 0 where
  pending : Option RawToken
  scanner : Scanner
  ends : o ≡ some (flags, pending, scanner)
  holds : Holds pending scanner rest

flags_loop-Flagged :
    (fuel : ℕ) (acc : List Trivia) (s : Scanner) {rs rest : List RawToken} {ts : List Trivia}
    → Trailing rs ts rest
    → Feeds s rs
    → length rs ≤ fuel
    → Flagged rest (flags_of (acc ++ ts)) (flags_loop fuel s (flags_of acc))
unfolding flags_loop flags_round
flags_loop-Flagged zero acc s t (feed a) h = absurd (omega arith)
flags_loop-Flagged (suc fuel) acc s (stop {r} triv) (feed a) h = record {
  pending = some (next_raw s).0;
  scanner = (next_raw s).1;
  ends = rw (triv, append-nil acc) refl;
  holds = kept a;
}
flags_loop-Flagged (suc fuel) acc s (newline {r} triv nl) (feed a) h = record {
  pending = none;
  scanner = (next_raw s).1;
  ends = rw (triv, flags_of-append acc (raw_trivia r), nl) refl;
  holds = fresh (After-goes a (trivia-not-eof (next_raw s).0.kind triv));
}
flags_loop-Flagged (suc fuel) acc s (more {r} {ts} triv nl t) (feed a) h =
    let q =
      flags_loop-Flagged fuel (acc ++ (raw_trivia r ∷ [])) (next_raw s).1 t
        (After-goes a (trivia-not-eof (next_raw s).0.kind triv)) (omega arith) in
    record {
      pending = q.pending;
      scanner = q.scanner;
      ends =
          rw
            (
              triv,
              flags_of-append acc (raw_trivia r),
              nl,
              sym (append_assoc acc (raw_trivia r ∷ []) ts),
            )
            q.ends;
      holds = q.holds;
    }

-- A token of the relation, with flags.
abbrev pub flagged_of : Token → FlaggedToken
flagged_of t = record {
  kind = t.kind;
  start = t.start;
  end = t.end;
  leading_flags = flags_of t.leading_trivia;
  trailing_flags = flags_of t.trailing_trivia;
}

-- The outer loop ends, and has appended these tokens.
pub record Collects (before : Builder FlaggedToken) (ts : List Token)
    (o : Option (Builder FlaggedToken)) : Type 0 where
  pub builder : Builder FlaggedToken
  pub ends : o ≡ some builder
  pub filled : IsBuilder builder
  pub holds : contents builder ≡ contents before ++ map flagged_of ts

module _ (pools : Pools FlaggedToken) (size : ℕ) where
  pub syntax_loop-Collects :
      (fuel : ℕ) (pending : Option RawToken) (s : Scanner) (tokens : Builder FlaggedToken)
      {leading : List Trivia} {rs : List RawToken} {ts : List Token}
      → Attached leading rs ts
      → Holds pending s rs
      → IsBuilder tokens
      → length rs ≤ fuel
      → length rs ≤ size
      → Collects tokens ts (syntax_loop pools size fuel (flags_of leading) pending s tokens)
  unfolding syntax_loop syntax_round
  syntax_loop-Collects zero pending s tokens (lead triv a) h w f z = absurd (omega arith)
  syntax_loop-Collects zero pending s tokens (last triv e) h w f z = absurd (omega arith)
  syntax_loop-Collects zero pending s tokens (token triv e t a) h w f z = absurd (omega arith)
  syntax_loop-Collects (suc fuel) pending s tokens (lead {leading} {r} triv a) h w f z =
      let (t, e, after) = taken-Takes h in
      let q =
        syntax_loop-Collects fuel none t tokens a
          (fresh (After-goes after (trivia-not-eof r.kind triv))) w (omega arith) (omega arith) in
      record {
        builder = q.builder;
        ends = rw (e, triv, flags_of-append leading (raw_trivia r)) q.ends;
        filled = q.filled;
        holds = q.holds;
      }
  syntax_loop-Collects (suc fuel) pending s tokens (last {leading} {r} triv eof) h w f z =
      let (t, e, after) = taken-Takes h in
      let q = append-Appends pools blank_flagged tokens (flagged r (flags_of leading) no_flags) w in
      record {
        builder = append pools blank_flagged tokens (flagged r (flags_of leading) no_flags);
        ends = rw (e, triv, eof) refl;
        filled = q.filled;
        holds = q.holds;
      }
  syntax_loop-Collects (suc fuel) pending s tokens
        (token {leading} {r} {rs} {rest} {trailing} {ts} triv eof t a) h w f z =
      let (u, e, after) = taken-Takes h in
      let i = flags_loop-Flagged size [] u t (After-goes after eof) (omega arith) in
      let new = flagged r (flags_of leading) (flags_of trailing) in
      let p = append-Appends pools blank_flagged tokens new w in
      let q =
        syntax_loop-Collects fuel i.pending i.scanner (append pools blank_flagged tokens new) a
          i.holds p.filled (omega (arith, Trailing-length t)) (omega (arith, Trailing-length t)) in
      record {
        builder = q.builder;
        ends = rw (e, triv, eof, i.ends) q.ends;
        filled = q.filled;
        holds =
            q.holds
            ∙ ap (λ xs. xs ++ map flagged_of ts) p.holds
            ∙ append_assoc (contents tokens) (new ∷ []) (map flagged_of ts);
      }
