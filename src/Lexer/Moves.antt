-- ===== src/Lexer/Moves.antt =====
-- What a scan does to the scanner: it is a run of `advance` calls, each on a byte of the source.
use pawn_parser.Prelude.{
  ℕ, zero, suc, ◌+◌, ◌≤◌, ◌<◌, ◌≡◌, refl, ◌∙◌, ap, Bool, true, false, arith, length, get_or,
  get_or-beyond, Bool-cases, inl, inr,
}
use pawn_parser.Lexer.Scanner.{
  Scanner, at_end, peek, peek_at, advance, advance_by, advance_while, rounds,
}

-- `t` is reached from `s` by calls of `advance`, none of them at the end of the source.
pub data Moves (s : Scanner) : Scanner → Type 0 where
  stay : Moves s s
  move : {t : Scanner} → Moves s t → t.pos < length t.src → Moves s (advance t)

pub advance-src : (s : Scanner) → (advance s).src ≡ s.src
unfolding advance
advance-src s = refl

pub advance-pos : (s : Scanner) → (advance s).pos ≡ s.pos + 1
unfolding advance
advance-pos s = refl

pub Moves-trans : {s t u : Scanner} → Moves s t → Moves t u → Moves s u
Moves-trans m stay = m
Moves-trans m (move n h) = move (Moves-trans m n) h

-- One byte ahead of any further moves.
pub Moves-first : {s t : Scanner} → s.pos < length s.src → Moves (advance s) t → Moves s t
Moves-first h m = Moves-trans (move stay h) m

pub Moves-src : {s t : Scanner} → Moves s t → t.src ≡ s.src
Moves-src stay = refl
Moves-src (move {t} m h) = advance-src t ∙ Moves-src m

pub Moves-pos : {s t : Scanner} → Moves s t → s.pos ≤ t.pos
Moves-pos stay = omega arith
Moves-pos (move {t} m h) = omega (arith, Moves-pos m, advance-pos t)

-- A scanner within its source stays within it.
pub Moves-within : {s t : Scanner} → Moves s t → s.pos ≤ length s.src → t.pos ≤ length t.src
unfolding advance
Moves-within stay h = h
Moves-within (move {t} m b) h = omega arith

-- A byte other than 0 stands within the source.
pub peek_at_pos : (s : Scanner) (k : ℕ) → 0 < peek_at s k → s.pos + k < length s.src
peek_at_pos s k h = elim (Bool-cases (at_end (record s { pos = s.pos + k }))) [
  | inl e ↦ absurd (omega (arith, get_or-beyond s.src (s.pos + k) 0 (ground arith)))
  | inr e ↦ ground arith
]

pub peek_pos : (s : Scanner) → 0 < peek s → s.pos < length s.src
peek_pos s h = elim (Bool-cases (at_end s)) [
  | inl e ↦ absurd (omega (arith, get_or-beyond s.src s.pos 0 (ground arith)))
  | inr e ↦ ground arith
]

pub peek_at-advance : (s : Scanner) (k : ℕ) → peek_at (advance s) k ≡ peek_at s (k + 1)
unfolding advance
peek_at-advance s k = ap (λ i. get_or s.src i 0) (omega arith)

pub peek-advance : (s : Scanner) → peek (advance s) ≡ peek_at s 1
unfolding advance
peek-advance s = refl

pub advance_by-Moves : (n : ℕ) (s : Scanner) → s.pos + n ≤ length s.src → Moves s (advance_by n s)
unfolding advance_by
advance_by-Moves zero s h = stay
advance_by-Moves (suc n) s h =
    Moves-first (omega arith)
      (advance_by-Moves n (advance s) (omega (arith, advance-pos s, ap length (advance-src s))))

pub advance_by-pos : (n : ℕ) (s : Scanner) → (advance_by n s).pos ≡ s.pos + n
unfolding advance_by
advance_by-pos zero s = omega arith
advance_by-pos (suc n) s = omega (arith, advance_by-pos n (advance s), advance-pos s)

-- A loop that looks for a byte before it advances.
module _ (test : Scanner → Bool)
    (looks : (s : Scanner) → test s ≡ true → s.pos < length s.src) where
  pub advance_while-Moves : (fuel : ℕ) (s : Scanner) → Moves s (advance_while fuel test s)
  unfolding advance_while
  advance_while-Moves zero s = stay
  advance_while-Moves (suc fuel) s = elim (Bool-cases (test s)) [
    | inl e ↦ rw (e, advance_while) (Moves-first (looks s e) (advance_while-Moves fuel (advance s)))
    | inr e ↦ rw (e, advance_while) stay
  ]

  -- With enough rounds it ends by its test.
  pub advance_while_stops :
      (fuel : ℕ) (s : Scanner)
      → length s.src ≤ s.pos + fuel
      → test (advance_while fuel test s) ≡ false
  unfolding advance_while advance
  advance_while_stops zero s h = elim (Bool-cases (test s)) [
    | inl e ↦ absurd (omega (arith, looks s e))
    | inr e ↦ e
  ]
  advance_while_stops (suc fuel) s h = elim (Bool-cases (test s)) [
    | inl e ↦ rw (e, advance_while) (advance_while_stops fuel (advance s) (omega arith))
    | inr e ↦ rw (e, advance_while) e
  ]

-- At least one byte was taken.
pub record Advances (s t : Scanner) : Type 0 where
  pub moves : Moves s t
  pub progress : s.pos < t.pos

pub Advances-first : {s t : Scanner} → s.pos < length s.src → Moves (advance s) t → Advances s t
unfolding advance
Advances-first h m = record { moves = Moves-first h m; progress = omega (arith, Moves-pos m) }

pub Advances-trans : {s t u : Scanner} → Moves s t → Advances t u → Advances s u
Advances-trans m a = record {
  moves = Moves-trans m a.moves;
  progress = omega (arith, Moves-pos m, a.progress);
}

pub Advances-then : {s t u : Scanner} → Advances s t → Moves t u → Advances s u
Advances-then a m = record {
  moves = Moves-trans a.moves m;
  progress = omega (arith, Moves-pos m, a.progress);
}

pub advance-Advances : (s : Scanner) → s.pos < length s.src → Advances s (advance s)
advance-Advances s h = Advances-first h stay

-- Two bytes, of which the second is there.
pub advance_twice-Advances :
    (s : Scanner) → s.pos + 1 < length s.src → Advances s (advance (advance s))
unfolding advance
advance_twice-Advances s h = Advances-first (omega arith) (move stay (omega arith))

-- A loop whose test holds at the start takes a byte.
pub advance_while-Advances :
    (test : Scanner → Bool) (looks : (s : Scanner) → test s ≡ true → s.pos < length s.src)
    (s : Scanner)
    → test s ≡ true
    → Advances s (advance_while (rounds s) test s)
unfolding advance_while
advance_while-Advances test looks s e = go (rounds s) (omega (arith, looks s e))
  where
    go : (fuel : ℕ) → 0 < fuel → Advances s (advance_while fuel test s)
    go zero h = absurd (omega arith)
    go (suc fuel) h =
        rw (e, advance_while)
          (Advances-first (looks s e) (advance_while-Moves test looks fuel (advance s)))
