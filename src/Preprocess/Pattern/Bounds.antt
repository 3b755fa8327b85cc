-- ===== src/Preprocess/Pattern/Bounds.antt =====
-- Matching stays within the source, goes forward, and ends.
use pawn_parser.Prelude.{
  ℕ, zero, suc, ◌+◌, ◌-◌, ◌≤◌, ◌<◌, ◌≡◌, refl, Bool, not, ◌&&◌, ◌||◌, List, [], ◌∷◌, Bytes,
  bytes_eq, Option, none, some, arith, ltb, leb, ◌==◌, if_cases, Bool-cases, ◌⊎◌, inl, inr, length,
  take, bytes_eq_iff,
}
use pawn_parser.Preprocess.Frame.{ByteRange}
use pawn_parser.Preprocess.Pattern.{
  byte_at, PatternMatch, prefix_length, skip_blanks, Matching, Round, is_decimal, pawn_alphanum,
  after_capture, capture, last_semicolon, literal_index, literal, match_round, match_loop,
  finish_match, match_pattern,
}
use pawn_parser.Preprocess.Pattern.Skips.{From, capture_loop-ends, blanks_loop-From}

-- Each capture lies before `n`.
abbrev pub CapturesWithin : ℕ → List (ℕ × ByteRange) → Type 0
CapturesWithin n [] = Unit
CapturesWithin n ((label, range) ∷ args) =
    (range.start ≤ range.end) × (range.end ≤ n) × CapturesWithin n args

captures_later :
    (n m : ℕ) (args : List (ℕ × ByteRange)) → n ≤ m → CapturesWithin n args → CapturesWithin m args
captures_later n m [] h w = tt
captures_later n m ((label, range) ∷ args) h (a, b, w) =
    (a, omega arith, captures_later n m args h w)

-- The captures lie before the place in the source, and that lies within it.
abbrev Within : Bytes → Matching → Type 0
Within source m = (m.source_index ≤ length source) × CapturesWithin m.source_index m.args

-- A round that ends: it fails, or goes on in the pattern and does not go back in the source.
abbrev Rounds : Bytes → Matching → Round → Type 0
Rounds source m none = ⊥
Rounds source m (some none) = Unit
Rounds source m (some (some n)) =
    Within source n × (m.pattern_index < n.pattern_index) × (m.source_index ≤ n.source_index)

module _ (source pattern : Bytes) (semicolons : Bool) (control : ℕ) where
  after_capture-Rounds :
      (m : Matching) (delimiter i : ℕ)
      → Within source m
      → From source m.source_index i
      → Rounds source m (after_capture source pattern semicolons control m delimiter i)
  unfolding after_capture
  after_capture-Rounds m delimiter i (w, c) (a, b) =
      if_cases (Rounds source m) (ltb i (length source) && byte_at source i == delimiter) _ _
        (λ e. (
          (
            ground arith,
            (a, omega arith, captures_later m.source_index (i + 1) m.args (omega arith) c),
          ),
          omega arith,
          omega arith,
        ))
        (λ _.
          if_cases (Rounds source m)
            (delimiter == b';' && m.pattern_index + 3 == length pattern && not semicolons) _ _
            (λ e.
              ((b, (a, omega arith, captures_later m.source_index i m.args a c)), omega arith, a))
            (λ _. tt))

  capture-Rounds :
      (m : Matching)
      → Within source m
      → Rounds source m (capture source pattern semicolons control m)
  unfolding capture
  capture-Rounds m w =
      if_cases (Rounds source m)
        (leb (length pattern) (m.pattern_index + 2)
          || not (is_decimal (byte_at pattern (m.pattern_index + 1))))
        _ _ (λ _. tt)
        (λ _.
          let d = byte_at pattern (m.pattern_index + 2) in
          let (j, e, f) =
            capture_loop-ends (length source + 1) source control d m.source_index w.0
              (omega arith) in
          rw e (after_capture-Rounds m d j w f))

  moved_Rounds :
      (m : Matching) (i : ℕ)
      → Within source m
      → m.source_index ≤ i
      → i ≤ length source
      → Rounds source m
          (some (some (record m { source_index = i; pattern_index = m.pattern_index + 1 })))
  moved_Rounds m i (w, c) a b = ((b, captures_later m.source_index i m.args a c), omega arith, a)

  last_semicolon-Rounds :
      (m : Matching)
      → Within source m
      → Rounds source m (last_semicolon source pattern semicolons control m)
  unfolding last_semicolon
  last_semicolon-Rounds m w =
      let i = skip_blanks source m.source_index in
      let (a, b) = blanks_loop-From (length source) source m.source_index w.0 in
      if_cases (Rounds source m) (leb (length source) i) _ _ (λ _. moved_Rounds m i w a b)
        (λ e.
          if_cases (Rounds source m) (byte_at source i == b';') _ _
            (λ _. moved_Rounds m (i + 1) w (omega arith) (ground arith)) (λ _. tt))

  literal_index-From :
      (m : Matching)
      → Within source m
      → From source m.source_index (literal_index source pattern semicolons control m)
  literal_index-From m w =
      if_cases (From source m.source_index)
        (not (pawn_alphanum (byte_at pattern m.pattern_index))
          && ltb 0 m.pattern_index
          && not (byte_at pattern (m.pattern_index - 1) == byte_at pattern m.pattern_index))
        _ _ (λ _. blanks_loop-From (length source) source m.source_index w.0)
        (λ _. (omega arith, w.0))

  literal-Rounds :
      (m : Matching)
      → Within source m
      → Rounds source m (literal source pattern semicolons control m)
  unfolding literal
  literal-Rounds m w =
      let i = literal_index source pattern semicolons control m in
      let (a, b) = literal_index-From m w in
      if_cases (Rounds source m)
        (ltb i (length source) && byte_at source i == byte_at pattern m.pattern_index) _ _
        (λ e. moved_Rounds m (i + 1) w (omega arith) (ground arith)) (λ _. tt)

  match_round-Rounds :
      (m : Matching)
      → Within source m
      → Rounds source m (match_round source pattern semicolons control m)
  unfolding match_round
  match_round-Rounds m w =
      let c = byte_at pattern m.pattern_index in
      if_cases (Rounds source m) (c == b'%') _ _ (λ _. capture-Rounds m w)
        (λ _.
          if_cases (Rounds source m)
            (c == b';' && m.pattern_index + 1 == length pattern && not semicolons) _ _
            (λ _. last_semicolon-Rounds m w) (λ _. literal-Rounds m w))

  -- The loop ends: it fails, or has gone through the pattern.
  match_loop-ends :
      (fuel : ℕ) (m : Matching)
      → Within source m
      → length pattern - m.pattern_index < fuel
      → (match_loop source pattern semicolons control fuel m ≡ some none)
        ⊎ ((n : Matching) × (match_loop source pattern semicolons control fuel m ≡ some (some n))
            × Within source n
            × (m.source_index ≤ n.source_index))
  unfolding match_loop
  match_loop-ends zero m w h = absurd (omega arith)
  match_loop-ends (suc fuel) m w h = elim (Bool-cases (ltb m.pattern_index (length pattern))) [
    | inr e ↦ inr (m, rw (e, match_loop) refl, w, omega arith)
    | inl e ↦
        elim (round_cases m (match_round source pattern semicolons control m) refl
          (match_round-Rounds m w)) [
            | inl f ↦ inl (rw (e, f, match_loop) refl)
            | inr (n, f, w', a, b) ↦ elim (match_loop-ends fuel n w' (ground arith)) [
              | inl g ↦ inl (rw (e, f, match_loop) g)
              | inr (o, g, w'', c) ↦ inr (o, rw (e, f, match_loop) g, w'', omega arith)
            ]
          ]
  ]
    where
      round_cases :
          (m : Matching) (r : Round)
          → match_round source pattern semicolons control m ≡ r
          → Rounds source m r
          → (match_round source pattern semicolons control m ≡ some none)
            ⊎ ((n : Matching) × (match_round source pattern semicolons control m ≡ some (some n))
                × Within source n
                × (m.pattern_index < n.pattern_index)
                × (m.source_index ≤ n.source_index))
      round_cases m none e h = absurd h
      round_cases m (some none) e h = inl e
      round_cases m (some (some n)) e (w, a, b) = inr (n, e, w, a, b)

  finish_match-keeps :
      (m : Matching)
      → (finish_match source pattern semicolons control m ≡ none)
        ⊎ (finish_match source pattern semicolons control m
            ≡ some (record { end = m.source_index; args = m.args }))
  unfolding finish_match
  finish_match-keeps m =
      if_cases
        (λ (o : Option PatternMatch).
          (o ≡ none) ⊎ (o ≡ some (record { end = m.source_index; args = m.args })))
        (not (m.pattern_index == length pattern)) _ _ (λ _. inl refl)
        (λ _.
          if_cases
            (λ (o : Option PatternMatch).
              (o ≡ none) ⊎ (o ≡ some (record { end = m.source_index; args = m.args })))
            (ltb 0 m.pattern_index
              && pawn_alphanum (byte_at pattern (m.pattern_index - 1))
              && ltb m.source_index (length source)
              && pawn_alphanum (byte_at source m.source_index))
            _ _ (λ _. inl refl) (λ _. inr refl))

  -- What `matchPawnPattern` says, when it ends: no match, or one that begins with the letters and
  -- digits of the pattern and stays, with its captures, within the source.
  abbrev pub Decides : Option (Option PatternMatch) → Type 0
  Decides none = ⊥
  Decides (some none) = Unit
  Decides (some (some m)) =
      (take (prefix_length pattern) source ≡ take (prefix_length pattern) pattern)
      × (0 < prefix_length pattern)
      × (prefix_length pattern ≤ m.end)
      × (m.end ≤ length source)
      × CapturesWithin m.end m.args

  -- For every source and every pattern the match ends. When it matches, the source begins with the
  -- letters and digits that the pattern begins with, of which there is one at least, the match ends
  -- behind them and within the source, and each capture is a range that ends within the match.
  pub match_pattern-Decides : Decides (match_pattern source pattern semicolons control)
  unfolding match_pattern
  match_pattern-Decides =
      let n = prefix_length pattern in
      if_cases Decides
        (n == 0 || ltb (length source) n || not (bytes_eq (take n source) (take n pattern))) _ _
        (λ _. tt)
        (λ e.
          let same : take n source ≡ take n pattern = (bytes_eq_iff _ _).0 (ground arith) in
          let pos : 0 < n = ground arith in
          let m : Matching = record { source_index = n; pattern_index = n; args = [] } in
          elim (match_loop-ends (length pattern + 1) m (ground arith, tt) (omega arith)) [
            | inl f ↦ rw f tt
            | inr (o, f, (a, b), c) ↦ elim (finish_match-keeps o) [
              | inl g ↦ rw (f, g) tt
              | inr g ↦ rw (f, g) (same, pos, c, a, b)
            ]
          ])
