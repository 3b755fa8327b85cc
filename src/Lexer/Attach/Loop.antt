-- ===== src/Lexer/Attach/Loop.antt =====
-- The loops of `buildTokensWithContext` attach the trivia as the relation says.
use pawn_parser.Prelude.{
  leb-false→lt, ℕ, ◌+◌, ◌%◌, ◌^◌, ◌≡◌, refl, true, false, ◌&&◌, List, [], ◌∷◌, Option, none, some,
  arith, length, Bool-cases, inl, inr, if_cases, ◌==◌,
}
use pawn_parser.Token.Kind.{Kind, kind_eq}
use pawn_parser.Token.Keyword.{is_trivia}
use pawn_parser.Lexer.Scanner.{RawToken, Scanner, at_end}
use pawn_parser.Lexer.Raw.{next_raw}
use pawn_parser.Lexer.Moves.{Moves-src}
use pawn_parser.Lexer.Scans.Next.{next_raw-Scans}
use pawn_parser.Lexer.Scans.Kinds.{next_raw-end}
use pawn_parser.Lexer.Attach.{
  Context, Build, Outcome, done, cancelled, panicked, out_of_fuel, ◌>>=◌, count_step, read_raw,
  take_raw,
}
use pawn_parser.Lexer.Attach.Feeds.{Feeds, feed, After, ended, goes, Holds, fresh, kept}

-- A run that has fuel ends with a result of which `P` holds, or is cancelled for the reason `C`.
abbrev pub Ends : {A : Type 0} → Type 0 → (A → Type 0) → Outcome A → Type 0
Ends C P (done a) = P a
Ends C P cancelled = C
Ends C P panicked = ⊥
Ends C P out_of_fuel = ⊥

pub Ends-bind :
    {A B : Type 0} (C : Type 0) (P : A → Type 0) (Q : B → Type 0) (m : Outcome A)
    (f : A → Outcome B)
    → Ends C P m
    → ((a : A) → P a → Ends C Q (f a))
    → Ends C Q (m >>= f)
Ends-bind C P Q (done a) f h k = k a h
Ends-bind C P Q cancelled f h k = h
Ends-bind C P Q panicked f h k = h
Ends-bind C P Q out_of_fuel f h k = h

pub Ends-map :
    {A : Type 0} (C : Type 0) (P Q : A → Type 0) (m : Outcome A)
    → Ends C P m
    → ((a : A) → P a → Q a)
    → Ends C Q m
Ends-map C P Q (done a) h k = k a h
Ends-map C P Q cancelled h k = h
Ends-map C P Q panicked h k = h
Ends-map C P Q out_of_fuel h k = h

-- The context is watched, and answers with an error at some count of steps.
abbrev pub Cancels : Context → Type 0
Cancels ctx = (ctx.cancellable ≡ true) × (n : ℕ) × (ctx.err n ≡ true)

count_step-Ends : (ctx : Context) (n : ℕ) → Ends (Cancels ctx) (λ _. Unit) (count_step ctx n)
unfolding count_step
count_step-Ends ctx n =
    if_cases (Ends (Cancels ctx) (λ _. Unit)) ctx.cancellable _ _
      (λ c.
        if_cases (Ends (Cancels ctx) (λ _. Unit))
          ((n + 1) % 2 ^ 32 % 256 == 0 && ctx.err ((n + 1) % 2 ^ 32)) _ _
          (λ e. (c, (n + 1) % 2 ^ 32, ground arith)) (λ _. tt))
      (λ _. tt)

pub trivia-not-eof : (k : Kind) → is_trivia k ≡ true → kind_eq k Kind.eof ≡ false
unfolding is_trivia kind_eq
trivia-not-eof Kind.eof h = cc
trivia-not-eof _ h = refl

next_raw-src : (s : Scanner) → (next_raw s).1.src ≡ s.src
next_raw-src s = elim (Bool-cases (at_end s)) [
  | inl e ↦ rw (next_raw-end s e)
  | inr e ↦ Moves-src (next_raw-Scans s (leb-false→lt (length s.src) s.pos e)).advances.moves
]

-- A raw token has been taken from `b`, and the builders were left alone.
pub record Took (b : Build) (rs : List RawToken) (p : RawToken × Build) : Type 0 where
  pub rest : List RawToken
  pub splits : rs ≡ p.0 ∷ rest
  pub after : After p.0 p.1.scanner rest
  pub none_pending : p.1.pending ≡ none
  pub same_tokens : p.1.tokens ≡ b.tokens
  pub same_trivia : p.1.trivia ≡ b.trivia
  pub same_leading : p.1.leading_start ≡ b.leading_start
  pub same_src : p.1.scanner.src ≡ b.scanner.src

pub read_raw-Ends :
    (ctx : Context) (b : Build) {rs : List RawToken}
    → b.pending ≡ none
    → Feeds b.scanner rs
    → Ends (Cancels ctx) (Took b rs) (read_raw ctx b)
unfolding read_raw
read_raw-Ends ctx b p (feed {rs} a) =
    Ends-bind (Cancels ctx) (λ _. Unit) (Took b ((next_raw b.scanner).0 ∷ rs))
      (count_step ctx b.steps) _ (count_step-Ends ctx b.steps)
      (λ n _. record {
        rest = rs;
        splits = refl;
        after = a;
        none_pending = p;
        same_tokens = refl;
        same_trivia = refl;
        same_leading = refl;
        same_src = next_raw-src b.scanner;
      })

take_fresh :
    (ctx : Context) (b : Build) (o : Option RawToken) {rs : List RawToken}
    → b.pending ≡ o
    → Holds o b.scanner rs
    → Ends (Cancels ctx) (Took b rs) (take_raw ctx o b)
unfolding take_raw
take_fresh ctx b none e (fresh f) = read_raw-Ends ctx b e f
take_fresh ctx b (some r) e (kept {rs} a) = record {
  rest = rs;
  splits = refl;
  after = a;
  none_pending = refl;
  same_tokens = refl;
  same_trivia = refl;
  same_leading = refl;
  same_src = refl;
}

pub take_raw-Ends :
    (ctx : Context) (b : Build) {rs : List RawToken}
    → Holds b.pending b.scanner rs
    → Ends (Cancels ctx) (Took b rs) (take_raw ctx b.pending b)
take_raw-Ends ctx b h = take_fresh ctx b b.pending refl h

-- Behind a token of another kind than the end of the file the scanner goes on.
pub After-goes :
    {r : RawToken} {s : Scanner} {rs : List RawToken}
    → After r s rs
    → kind_eq r.kind Kind.eof ≡ false
    → Feeds s rs
After-goes (ended e) h = absurd (ground arith)
After-goes (goes e f) h = f

pub After-ends :
    {r : RawToken} {s : Scanner} {rs : List RawToken}
    → After r s rs
    → kind_eq r.kind Kind.eof ≡ true
    → rs ≡ []
After-ends (ended e) h = refl
After-ends (goes e f) h = absurd (ground arith)
