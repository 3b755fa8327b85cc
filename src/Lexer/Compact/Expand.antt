-- ===== src/Lexer/Compact/Expand.antt =====
-- The compact records hold all of the tokens and their trivia.
use pawn_parser.Prelude.{
  ℕ, length, Bool, if◌then◌else◌, ◌^◌, ◌≤◌, ◌<◌, ◌≡◌, refl, ap₂, true, false, List, [], ◌∷◌, some,
  arith, slice, map,
}
use pawn_parser.Token.Types.{Trivia, Token}
use pawn_parser.Token.Compact.{CompactTrivia, CompactToken, each, no_flags}
use pawn_parser.Lexer.Attach.{BuiltToken, resolve}
use pawn_parser.Lexer.Attach.Slices.{trivia_slice-slice}
use pawn_parser.Lexer.Compact.{kept_range, compact_token, kept_trivia, full_tokens, finish_compact}
use pawn_parser.Lexer.Compact.Ranges.{
  expand_trivia, expand_token, PositionFits, TriviaFits, BuiltFits, shrink, compact_position-fits,
  each-compact_trivia, compact_range-slice,
}

-- What is kept of a token when the trivia is retained or not.
abbrev pub kept_token : Bool → Token → Token
kept_token true t = t
kept_token false t = record t { leading_trivia = []; trailing_trivia = [] }

-- The token that a built token resolves to, and the compact record of it.
record Compacts (retain : Bool) (ts : List Trivia) (cs : List CompactTrivia) (b : BuiltToken)
    : Type 0 where
  full : Token
  compact : CompactToken
  resolved : resolve ts b ≡ some full
  compacted : compact_token retain b ≡ some compact
  expands : expand_token cs compact ≡ kept_token retain full

abbrev full_token : List Trivia → BuiltToken → Token
full_token ts b = record {
  kind = b.kind;
  start = b.start;
  end = b.end;
  leading_trivia = slice ts b.trivia.leading_start b.trivia.trailing_start;
  trailing_trivia = slice ts b.trivia.trailing_start b.trivia.trailing_end;
  origin = [];
}

abbrev compact_with : BuiltToken → ℕ × ℕ → ℕ × ℕ → CompactToken
compact_with b r q = record {
  kind = b.kind;
  start = shrink b.start;
  end = shrink b.end;
  leading_start = r.0;
  leading_count = r.1;
  trailing_start = q.0;
  trailing_count = q.1;
  origin = 0;
  leading_flags = no_flags;
  trailing_flags = no_flags;
}

resolve-full_token :
    (ts : List Trivia) (b : BuiltToken)
    → b.trivia.leading_start ≤ b.trivia.trailing_start
    → b.trivia.trailing_start ≤ b.trivia.trailing_end
    → b.trivia.trailing_end ≤ length ts
    → resolve ts b ≡ some (full_token ts b)
unfolding resolve
resolve-full_token ts b l t n =
    rw
      (
        trivia_slice-slice ts b.trivia.leading_start b.trivia.trailing_start l (omega arith),
        trivia_slice-slice ts b.trivia.trailing_start b.trivia.trailing_end t n,
      )
      refl

compact_token-Compacts :
    (retain : Bool) (cs : List CompactTrivia) (ts : List Trivia) (b : BuiltToken)
    → (retain ≡ true → map expand_trivia cs ≡ ts)
    → length ts < 2 ^ 32
    → PositionFits b.start
    → PositionFits b.end
    → b.trivia.leading_start ≤ b.trivia.trailing_start
    → b.trivia.trailing_start ≤ b.trivia.trailing_end
    → b.trivia.trailing_end ≤ length ts
    → Compacts retain ts cs b
unfolding compact_token kept_range
compact_token-Compacts true cs ts b f w s e l t n =
    let (r, re, rs) =
      compact_range-slice cs ts b.trivia.leading_start b.trivia.trailing_start (f refl) l
        (omega arith) w in
    let (q, qe, qs) =
      compact_range-slice cs ts b.trivia.trailing_start b.trivia.trailing_end (f refl) t n w in
    record {
      full = full_token ts b;
      compact = compact_with b r q;
      resolved = resolve-full_token ts b l t n;
      compacted = rw (compact_position-fits b.start s, compact_position-fits b.end e, re, qe) refl;
      expands =
          ap₂
            (λ xs ys. record {
              kind = b.kind;
              start = b.start;
              end = b.end;
              leading_trivia = xs;
              trailing_trivia = ys;
              origin = [];
            })
            rs qs;
    }
compact_token-Compacts false cs ts b f w s e l t n = record {
  full = full_token ts b;
  compact = compact_with b (0, 0) (0, 0);
  resolved = resolve-full_token ts b l t n;
  compacted = rw (compact_position-fits b.start s, compact_position-fits b.end e) refl;
  expands = refl;
}

each-compact_token :
    (retain : Bool) (cs : List CompactTrivia) (ts : List Trivia) (bs : List BuiltToken)
    → (retain ≡ true → map expand_trivia cs ≡ ts)
    → length ts < 2 ^ 32
    → BuiltFits (length ts) bs
    → (tokens : List Token) × (ks : List CompactToken) × (each (resolve ts) bs ≡ some tokens)
      × (each (compact_token retain) bs ≡ some ks)
      × (map (expand_token cs) ks ≡ map (kept_token retain) tokens)
unfolding each
each-compact_token retain cs ts [] f small w = ([], [], refl, refl, refl)
each-compact_token retain cs ts (b ∷ bs) f small (s, e, l, t, n, w) =
    let (xs, ks, rest, compact, same) = each-compact_token retain cs ts bs f small w in
    let c = compact_token-Compacts retain cs ts b f small s e l t n in
    (
      c.full ∷ xs,
      c.compact ∷ ks,
      rw (c.resolved, rest) refl,
      rw (c.compacted, compact) refl,
      ap₂ ◌∷◌ c.expands same,
    )

kept_trivia-expand :
    (retain : Bool) (ts : List Trivia)
    → TriviaFits ts
    → (cs : List CompactTrivia) × (kept_trivia retain ts ≡ some cs)
      × (map expand_trivia cs ≡ (if retain then ts else []))
unfolding kept_trivia
kept_trivia-expand true ts v = each-compact_trivia ts v
kept_trivia-expand false ts v = ([], refl, refl)

-- For less than 2 ^ 32 pieces of trivia, and tokens whose ranges lie within them, each with its end
-- not before its start, and positions of both below 2 ^ 32, `finishCompact` does not panic: it
-- returns the full tokens, when they are asked for, and compact records that expand to these tokens
-- and to the trivia, or, when the trivia is not retained, to these tokens without trivia.
pub finish_compact-expand :
    (retain full : Bool) (ts : List Trivia) (bs : List BuiltToken)
    → length ts < 2 ^ 32
    → TriviaFits ts
    → BuiltFits (length ts) bs
    → (tokens : List Token) × (ks : List CompactToken) × (cs : List CompactTrivia) × (each
          (resolve ts)
          bs
        ≡ some tokens)
      × (finish_compact retain full ts bs ≡ some (if full then tokens else [], ks, cs))
      × (map (expand_token cs) ks ≡ map (kept_token retain) tokens)
      × (map expand_trivia cs ≡ (if retain then ts else []))
unfolding finish_compact full_tokens
finish_compact-expand retain full ts bs small v w =
    let (cs, e, f) = kept_trivia-expand retain ts v in
    let (xs, ks, r, g, same) =
      each-compact_token retain cs ts bs (retained retain ts (map expand_trivia cs) f) small w in
    (xs, ks, cs, r, finished full xs ks cs r e g, same, f)
  where
    retained : (b : Bool) (ts us : List Trivia) → us ≡ (if b then ts else []) → b ≡ true → us ≡ ts
    retained true ts us f e = f
    retained false ts us f e = cc

    finished :
        (full : Bool) (xs : List Token) (ks : List CompactToken) (cs : List CompactTrivia)
        → each (resolve ts) bs ≡ some xs
        → kept_trivia retain ts ≡ some cs
        → each (compact_token retain) bs ≡ some ks
        → finish_compact retain full ts bs ≡ some (if full then xs else [], ks, cs)
    finished true xs ks cs r e g = rw (e, r, g) refl
    finished false xs ks cs r e g = rw (e, g) refl
