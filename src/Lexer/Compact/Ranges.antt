-- ===== src/Lexer/Compact/Ranges.antt =====
-- How compact positions, trivia and ranges are expanded again, and what fits into them.
use pawn_parser.Prelude.{
  ℕ, zero, length, suc, ◌+◌, ◌-◌, ◌^◌, ◌≤◌, ◌<◌, ◌≡◌, refl, ap, ap₂, ◌∙◌, false, List, [], ◌∷◌,
  Option, some, arith, ltb, ◌==◌, if_cases, take, drop, slice, map,
}
use pawn_parser.Token.Types.{Position, Trivia, Token}
use pawn_parser.Token.Compact.{CompactPosition, CompactTrivia, CompactToken, each, compact_position}
use pawn_parser.Lexer.Attach.{BuiltToken}
use pawn_parser.Lexer.Syntax.Refines.{compact_uint-fits}
use pawn_parser.Lexer.Compact.{compact_trivia, compact_count, compact_range}

abbrev expand_position : CompactPosition → Position
expand_position p = record { offset = p.offset; line = p.line; col = p.col }

abbrev pub expand_trivia : CompactTrivia → Trivia
expand_trivia t = record {
  kind = t.kind;
  start = expand_position t.start;
  end = expand_position t.end;
}

-- A token with the trivia that its ranges cut out.
abbrev pub expand_token : List CompactTrivia → CompactToken → Token
expand_token trivia t = record {
  kind = t.kind;
  start = expand_position t.start;
  end = expand_position t.end;
  leading_trivia =
      map expand_trivia (slice trivia t.leading_start (t.leading_start + t.leading_count));
  trailing_trivia =
      map expand_trivia (slice trivia t.trailing_start (t.trailing_start + t.trailing_count));
  origin = [];
}

-- A position, a piece of trivia, a token whose numbers are below 2 ^ 32.
abbrev pub PositionFits : Position → Type 0
PositionFits p = (p.offset < 2 ^ 32) × (p.line < 2 ^ 32) × (p.col < 2 ^ 32)

abbrev pub TriviaFits : List Trivia → Type 0
TriviaFits [] = Unit
TriviaFits (t ∷ ts) = PositionFits t.start × PositionFits t.end × TriviaFits ts

-- Positions that fit, and ranges that lie within this much trivia.
abbrev pub BuiltFits : ℕ → List BuiltToken → Type 0
BuiltFits n [] = Unit
BuiltFits n (b ∷ bs) =
    PositionFits b.start
    × PositionFits b.end
    × (b.trivia.leading_start ≤ b.trivia.trailing_start)
    × (b.trivia.trailing_start ≤ b.trivia.trailing_end)
    × (b.trivia.trailing_end ≤ n)
    × BuiltFits n bs

abbrev pub shrink : Position → CompactPosition
shrink p = record { offset = p.offset; line = p.line; col = p.col }

pub compact_position-fits : (p : Position) → PositionFits p → compact_position p ≡ some (shrink p)
unfolding compact_position
compact_position-fits p (o, l, c) =
    rw (compact_uint-fits p.offset o, compact_uint-fits p.line l, compact_uint-fits p.col c) refl

pub each-compact_trivia :
    (ts : List Trivia)
    → TriviaFits ts
    → (cs : List CompactTrivia) × (each compact_trivia ts ≡ some cs) × (map expand_trivia cs ≡ ts)
unfolding each compact_trivia
each-compact_trivia [] w = ([], refl, refl)
each-compact_trivia (t ∷ ts) (a, b, w) =
    let (cs, e, f) = each-compact_trivia ts w in
    (
      record { kind = t.kind; start = shrink t.start; end = shrink t.end } ∷ cs,
      rw (compact_position-fits t.start a, compact_position-fits t.end b, e) refl,
      ap (λ xs. t ∷ xs) f,
    )

map-take {ℓ κ} :
    {A : Type ℓ} {B : Type κ} (f : A → B) (n : ℕ) (xs : List A)
    → map f (take n xs) ≡ take n (map f xs)
map-take f zero xs = refl
map-take f (suc n) [] = refl
map-take f (suc n) (x ∷ xs) = ap (λ ys. f x ∷ ys) (map-take f n xs)

map-drop {ℓ κ} :
    {A : Type ℓ} {B : Type κ} (f : A → B) (n : ℕ) (xs : List A)
    → map f (drop n xs) ≡ drop n (map f xs)
map-drop f zero xs = refl
map-drop f (suc n) [] = refl
map-drop f (suc n) (x ∷ xs) = map-drop f n xs

-- A range and what it cuts out.
pub compact_range-slice :
    (cs : List CompactTrivia) (ts : List Trivia) (i j : ℕ)
    → map expand_trivia cs ≡ ts
    → i ≤ j
    → j ≤ length ts
    → length ts < 2 ^ 32
    → (r : ℕ × ℕ) × (compact_range i j ≡ some r)
      × (map expand_trivia (slice cs r.0 (r.0 + r.1)) ≡ slice ts i j)
unfolding compact_range compact_count
compact_range-slice cs ts i j f h k n =
    if_cases
      (λ (o : Option (ℕ × ℕ)).
        (r : ℕ × ℕ) × (o ≡ some r) × (map expand_trivia (slice cs r.0 (r.0 + r.1)) ≡ slice ts i j))
      (i == j) _ _
      (λ e. ((0, 0), refl, ap (λ n. take n (drop i ts)) (let g : zero ≡ j - i = ground arith in g)))
      (λ e. (
        (i, j - i),
        rw
            (
              compact_uint-fits i (omega arith),
              (let g : ltb j i ≡ false = ground arith in g),
              compact_uint-fits (j - i) (omega arith),
            )
            refl,
        map-take expand_trivia (i + (j - i) - i) (drop i cs)
            ∙ ap₂ take (let g : i + (j - i) - i ≡ j - i = omega arith in g)
                (map-drop expand_trivia i cs)
            ∙ ap (λ xs. take (j - i) (drop i xs)) f,
      ))
