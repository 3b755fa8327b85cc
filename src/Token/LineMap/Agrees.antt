-- ===== src/Token/LineMap/Agrees.antt =====
-- The line map and the description of positions agree.
use pawn_parser.Prelude.{
  ==_iff, length-take, get_or-append_right, get_or-append_left, length-drop, take-append-drop, leb,
  leb→le, leb-false→lt, ℕ, zero, suc, ◌+◌, ◌-◌, ◌/◌, ◌%◌, ◌^◌, ◌≤◌, ◌<◌, ◌≡◌, refl, sym, ap, ap₂,
  ◌∙◌, Bool, true, false, List, [], ◌∷◌, ◌++◌, Bytes, arith, ltb, ◌==◌, if◌then◌else◌, if_cases,
  length, length-append, get_or, take, drop, take-suc, append_assoc, append-nil, Bool-cases, inl,
  inr,
}
use pawn_parser.Token.Types.{Position}
use pawn_parser.Token.Locate.{line_number, line_start, position_at, newline_at}
use pawn_parser.Token.LineMap.{
  line_map_loop, new_line_map, search_loop, sort_search, line_map_position,
}

-- The starts of the lines that begin within a text that stands at an offset.
newline_starts : Bytes → ℕ → List ℕ
newline_starts [] n = []
newline_starts (c ∷ cs) n =
    if c == b'\n' then (n + 1) % 2 ^ 32 ∷ newline_starts cs (n + 1) else newline_starts cs (n + 1)

line_map_loop-starts :
    (cs : Bytes) (n : ℕ) (starts : List ℕ)
    → line_map_loop cs n starts ≡ starts ++ newline_starts cs n
unfolding line_map_loop newline_starts
line_map_loop-starts [] n starts = sym (append-nil starts)
line_map_loop-starts (c ∷ cs) n starts = elim (Bool-cases (c == b'\n')) [
  | inl e ↦ rw e (line_map_loop-starts cs (n + 1) _ ∙ append_assoc starts _ _)
  | inr e ↦ rw e (line_map_loop-starts cs (n + 1) starts)
]

newline_starts-append :
    (xs ys : Bytes) (n : ℕ)
    → newline_starts (xs ++ ys) n ≡ newline_starts xs n ++ newline_starts ys (n + length xs)
unfolding newline_starts
newline_starts-append [] ys n = ap (newline_starts ys) (omega arith)
newline_starts-append (c ∷ xs) ys n = elim (Bool-cases (c == b'\n')) [
  | inl e ↦ rw e (ap (◌∷◌ ((n + 1) % 2 ^ 32)) (newline_starts-append xs ys (n + 1) ∙ shift))
  | inr e ↦ rw e (newline_starts-append xs ys (n + 1) ∙ shift)
]
  where
    shift :
        newline_starts xs (n + 1) ++ newline_starts ys (n + 1 + length xs)
        ≡ newline_starts xs (n + 1) ++ newline_starts ys (n + suc (length xs))
    shift = ap (λ k. newline_starts xs (n + 1) ++ newline_starts ys k) (omega arith)

-- Every index below `m` fails the test and every other passes it.
record SplitAt (found : ℕ → Bool) (m n : ℕ) : Type 0 where
  below : (k : ℕ) → k < m → found k ≡ false
  above : (k : ℕ) → m ≤ k → k < n → found k ≡ true

passes : {found : ℕ → Bool} {m n : ℕ} → SplitAt found m n → (k : ℕ) → found k ≡ true → m ≤ k
passes {found} {m} s k e = elim (Bool-cases (leb m k)) [
  | inl h ↦ leb→le m k h
  | inr h ↦ let f = s.below k (leb-false→lt m k h) in absurd (ground arith)
]

fails : {found : ℕ → Bool} {m n : ℕ} → SplitAt found m n → (k : ℕ) → k < n → found k ≡ false → k < m
fails {found} {m} s k b e = elim (Bool-cases (leb m k)) [
  | inl h ↦ let f = s.above k (leb→le m k h) b in absurd (ground arith)
  | inr h ↦ leb-false→lt m k h
]

search_loop-SplitAt :
    (fuel : ℕ) (found : ℕ → Bool) {m n : ℕ} (i j : ℕ)
    → SplitAt found m n
    → i ≤ m
    → m ≤ j
    → j ≤ n
    → j ≤ i + fuel
    → search_loop fuel found i j ≡ m
unfolding search_loop
search_loop-SplitAt zero found i j s h k b f = omega arith
search_loop-SplitAt (suc fuel) found {m} {n} i j s h k b f = elim (Bool-cases (ltb i j)) [
  | inr e ↦ rw (e, search_loop) (ground arith)
  | inl e ↦ elim (Bool-cases (found ((i + j) / 2))) [
    | inl p ↦
        rw (e, p, search_loop)
          (search_loop-SplitAt fuel found i ((i + j) / 2) s h (passes s ((i + j) / 2) p)
            (ground arith) (ground arith))
    | inr p ↦
        rw (e, p, search_loop)
          (search_loop-SplitAt fuel found ((i + j) / 2 + 1) j s
            (omega (arith, fails s ((i + j) / 2) (ground arith) p)) k b (ground arith))
  ]
]

-- The starts of the lines that begin at or before an offset.
abbrev starts_upto : Bytes → ℕ → List ℕ
starts_upto src n = 0 ∷ newline_starts (take n src) 0

starts_upto-suc :
    (src : Bytes) (n : ℕ)
    → n < length src
    → starts_upto src (suc n) ≡ (
        if newline_at src n
        then starts_upto src n ++ ((n + 1) % 2 ^ 32 ∷ [])
        else starts_upto src n)
unfolding newline_starts
starts_upto-suc src n h =
    ap (λ xs. 0 ∷ newline_starts xs 0) (take-suc n src 0 h)
    ∙ ap (◌∷◌ 0) (newline_starts-append (take n src) (get_or src n 0 ∷ []) 0)
    ∙ ap (λ k. 0 ∷ (newline_starts (take n src) 0 ++ newline_starts (get_or src n 0 ∷ []) k))
        (let e : 0 + length (take n src) ≡ n = omega (arith, length-take n src (omega arith)) in e)
    ∙ closing
  where
    closing : 0 ∷ (newline_starts (take n src) 0 ++ newline_starts (get_or src n 0 ∷ []) n) ≡ (
        if newline_at src n
        then starts_upto src n ++ ((n + 1) % 2 ^ 32 ∷ [])
        else starts_upto src n)
    closing = elim (Bool-cases (newline_at src n)) [
      | inl e ↦ rw e
      | inr e ↦ rw e (ap (◌∷◌ 0) (append-nil (newline_starts (take n src) 0)))
    ]

-- They are as many as the line's number, end with the line's start, and lie at or before it.
record Upto (src : Bytes) (n : ℕ) (xs : List ℕ) : Type 0 where
  some_line : 0 < length xs
  number : length xs ≡ line_number src n
  last_start : get_or xs (length xs - 1) 0 ≡ line_start src n
  bounded : (k : ℕ) → k < length xs → get_or xs k 0 ≤ n

Upto-newline :
    (src : Bytes) (n s : ℕ) (xs : List ℕ)
    → Upto src n xs
    → newline_at src n ≡ true
    → s ≡ suc n
    → Upto src (suc n) (xs ++ (s ∷ []))
unfolding line_number line_start
Upto-newline src n s xs u e f = record {
  some_line = omega (arith, length-append xs (s ∷ []));
  number = rw e (omega (arith, u.number, length-append xs (s ∷ [])));
  last_start = rw e (
      ap (λ k. get_or (xs ++ (s ∷ [])) k 0)
        (let g : length (xs ++ (s ∷ [])) - 1 ≡ length xs =
            omega (arith, length-append xs (s ∷ [])) in
          g)
      ∙ get_or-append_right xs (s ∷ []) (length xs) 0 (omega arith)
      ∙ ap (λ k. get_or (s ∷ []) k 0) (let g : length xs - length xs ≡ 0 = omega arith in g)
      ∙ f);
  bounded = λ k b. elim (Bool-cases (leb (length xs) k)) [
    | inr h ↦
        rw (get_or-append_left xs (s ∷ []) k 0 (leb-false→lt (length xs) k h))
          (omega (arith, u.bounded k (leb-false→lt (length xs) k h)))
    | inl h ↦ rw (get_or-append_right xs (s ∷ []) k 0 (leb→le (length xs) k h)) (
        omega (
          arith,
          ap (λ i. get_or (s ∷ []) i 0)
              (let g : k - length xs ≡ 0 = omega (arith, length-append xs (s ∷ [])) in g),
        ))
  ];
}

Upto-same :
    (src : Bytes) (n : ℕ) (xs : List ℕ)
    → Upto src n xs
    → newline_at src n ≡ false
    → Upto src (suc n) xs
unfolding line_number line_start
Upto-same src n xs u e = record {
  some_line = u.some_line;
  number = rw e u.number;
  last_start = rw e u.last_start;
  bounded = λ k b. omega (arith, u.bounded k b);
}

starts_upto-Upto :
    (src : Bytes) (n : ℕ) → length src < 2 ^ 32 → n ≤ length src → Upto src n (starts_upto src n)
unfolding line_number line_start newline_starts
starts_upto-Upto src zero w h = record {
  some_line = omega arith;
  number = refl;
  last_start = refl;
  bounded = first;
}
  where
    first : (k : ℕ) → k < 1 → get_or (0 ∷ []) k 0 ≤ 0
    first zero b = omega arith
    first (suc k) b = absurd (omega arith)
starts_upto-Upto src (suc n) w h =
    let u = starts_upto-Upto src n w (omega arith) in
    rw (starts_upto-suc src n (omega arith)) (
      if_cases (Upto src (suc n)) (newline_at src n) _ _
        (λ e. Upto-newline src n ((n + 1) % 2 ^ 32) (starts_upto src n) u e (omega arith))
        (λ e. Upto-same src n (starts_upto src n) u e))

above_cons :
    (n v : ℕ) (rest : List ℕ)
    → n < v
    → ((k : ℕ) → k < length rest → n < get_or rest k 0)
    → (k : ℕ) → k < suc (length rest)
    → n < get_or (v ∷ rest) k 0
above_cons n v rest h later zero b = h
above_cons n v rest h later (suc k) b = later k (omega arith)

newline_starts_above :
    (cs : Bytes) (n k : ℕ)
    → n + length cs < 2 ^ 32
    → k < length (newline_starts cs n)
    → n < get_or (newline_starts cs n) k 0
unfolding newline_starts
newline_starts_above [] n k w b = absurd (omega arith)
newline_starts_above (c ∷ cs) n k w b =
    let later : (i : ℕ)
        → i < length (newline_starts cs (n + 1))
        → n < get_or (newline_starts cs (n + 1)) i 0 =
      λ i h. omega (arith, newline_starts_above cs (n + 1) i (omega arith) h) in
    elim (Bool-cases (c == b'\n')) [
      | inl e ↦ rw e (
          above_cons n ((n + 1) % 2 ^ 32) (newline_starts cs (n + 1)) (omega arith) later k
            (rw e at b))
      | inr e ↦ rw e (later k (rw e at b))
    ]

-- Where the table is split, the search finds the line.
position_split :
    (src : Bytes) (n : ℕ) (xs ys : List ℕ)
    → Upto src n xs
    → ((k : ℕ) → k < length ys → n < get_or ys k 0)
    → line_map_position (record { starts = xs ++ ys }) n ≡ position_at src n
unfolding line_map_position sort_search
position_split src n xs ys u above = rw found (
    if_cases (λ (p : Position). p ≡ position_at src n) (length xs == 0) _ _
      (λ e. absurd (omega (arith, u.some_line, (==_iff (length xs) 0).0 e)))
      (λ _.
        ap₂ (λ (l c : ℕ). record { offset = n; line = l; col = n - c + 1 }) u.number
          (get_or-append_left xs ys (length xs - 1) 0 (omega (arith, u.some_line)) ∙ u.last_start)))
  where
    split : SplitAt (λ i. ltb n (get_or (xs ++ ys) i 0)) (length xs) (length (xs ++ ys))
    split = record {
      below = λ k b. rw (get_or-append_left xs ys k 0 b) (ground (arith, u.bounded k b));
      above = λ k h b.
          rw (get_or-append_right xs ys k 0 h)
            (ground (arith, above (k - length xs) (omega (arith, length-append xs ys))));
    }

    found :
        search_loop (length (xs ++ ys)) (λ i. ltb n (get_or (xs ++ ys) i 0)) 0 (length (xs ++ ys))
        ≡ length xs
    found =
        search_loop-SplitAt (length (xs ++ ys)) (λ i. ltb n (get_or (xs ++ ys) i 0)) 0
          (length (xs ++ ys)) split (omega arith) (omega (arith, length-append xs ys)) (omega arith)
          (omega arith)

-- The table gives each offset of a source of less than 2 ^ 32 bytes the line and column that
-- counting the newlines gives.
pub line_map_position-position_at :
    (src : Bytes) (n : ℕ)
    → length src < 2 ^ 32
    → n ≤ length src
    → line_map_position (new_line_map src) n ≡ position_at src n
unfolding new_line_map
line_map_position-position_at src n w h =
    ap (λ xs. line_map_position (record { starts = xs }) n) table
    ∙ position_split src n (starts_upto src n) (newline_starts (drop n src) n)
        (starts_upto-Upto src n w h)
        (λ k b. newline_starts_above (drop n src) n k (omega (arith, length-drop n src)) b)
  where
    table : line_map_loop src 0 (0 ∷ []) ≡ starts_upto src n ++ newline_starts (drop n src) n
    table =
        line_map_loop-starts src 0 (0 ∷ [])
        ∙ ap (λ xs. 0 ∷ newline_starts xs 0) (sym (take-append-drop n src))
        ∙ ap (◌∷◌ 0) (newline_starts-append (take n src) (drop n src) 0)
        ∙ ap (λ k. starts_upto src n ++ newline_starts (drop n src) k)
            (let e : 0 + length (take n src) ≡ n = omega (arith, length-take n src h) in e)
