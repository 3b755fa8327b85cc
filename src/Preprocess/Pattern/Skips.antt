-- ===== src/Preprocess/Pattern/Skips.antt =====
-- Skipping in a source goes forward and stays within it.
use pawn_parser.Prelude.{
  ℕ, zero, suc, ◌+◌, ◌-◌, ◌≤◌, ◌<◌, ◌≡◌, refl, subst, not, ◌&&◌, List, [], ◌∷◌, Bytes, Option, none,
  some, arith, ltb, leb, ◌==◌, if_cases, Bool-cases, Option-cases, ◌⊎◌, inl, inr, length,
}
use pawn_parser.Preprocess.Pattern.{
  byte_at, quoted_loop, quote_index, is_quote, skip_quoted, opens_group, bracket, group_loop,
  skip_group, search_step, capture_loop, blanks_loop,
}

-- A place at or behind `i`, within the source.
abbrev pub From : Bytes → ℕ → ℕ → Type 0
From source i j = (i ≤ j) × (j ≤ length source)

pub quoted_loop-From :
    (fuel : ℕ) (source : Bytes) (control quote i : ℕ)
    → i ≤ length source
    → From source i (quoted_loop fuel source control quote i)
unfolding quoted_loop
quoted_loop-From zero source control quote i h = (h, omega arith)
quoted_loop-From (suc fuel) source control quote i h = elim (Bool-cases (leb (length source) i)) [
  | inl e ↦ rw (e, quoted_loop) (h, omega arith)
  | inr e ↦ elim (Bool-cases (byte_at source i == control && ltb (i + 1) (length source))) [
    | inl f ↦
        let (a, b) = quoted_loop-From fuel source control quote (i + 2) (ground arith) in
        rw (e, f, quoted_loop) (omega arith, b)
    | inr f ↦ elim (Bool-cases (byte_at source i == quote)) [
      | inl g ↦ rw (e, f, g, quoted_loop) (omega arith, ground arith)
      | inr g ↦
          let (a, b) = quoted_loop-From fuel source control quote (i + 1) (ground arith) in
          rw (e, f, g, quoted_loop) (omega arith, b)
    ]
  ]
]

pub quote_index-le :
    (source : Bytes) (start : ℕ)
    → start < length source
    → (start ≤ quote_index source start) × (quote_index source start < length source)
quote_index-le source start h = ground arith

-- Behind `i`, or nowhere.
abbrev pub Ahead : Bytes → ℕ → Option ℕ → Type 0
Ahead source i none = Unit
Ahead source i (some j) = From source (suc i) j

pub skip_quoted-Ahead :
    (source : Bytes) (start control : ℕ) → Ahead source start (skip_quoted source start control)
unfolding skip_quoted
skip_quoted-Ahead source start control =
    let q = quote_index source start in
    if_cases (Ahead source start) (ltb start (length source) && is_quote (byte_at source q)) _ _
      (λ e.
        let (a, b) = quote_index-le source start (ground arith) in
        let (c, d) =
          quoted_loop-From (length source) source control (byte_at source q) (q + 1)
            (omega arith) in
        (omega arith, d))
      (λ _. tt)

pub List-cases : {A : Type 0} (xs : List A) → (xs ≡ []) ⊎ ((x : A) × (ys : List A) × (xs ≡ x ∷ ys))
List-cases [] = inl refl
List-cases (x ∷ ys) = inr (x, ys, refl)

pub group_loop-From :
    (fuel : ℕ) (source : Bytes) (control : ℕ) (stack : List ℕ) (i : ℕ)
    → i ≤ length source
    → From source i (group_loop fuel source control stack i)
unfolding group_loop
group_loop-From zero source control stack i h = (h, omega arith)
group_loop-From (suc fuel) source control stack i h = elim (Bool-cases (leb (length source) i)) [
  | inl e ↦ rw (e, group_loop) (h, omega arith)
  | inr e ↦ elim (Option-cases (skip_quoted source i control)) [
    | inr (next, f) ↦
        let (a, b) = subst (Ahead source i) f (skip_quoted-Ahead source i control) in
        let (c, d) = group_loop-From fuel source control stack next b in
        rw (e, f, group_loop) (omega arith, d)
    | inl f ↦ elim (List-cases (bracket stack (byte_at source i))) [
      | inl g ↦ rw (e, f, g, group_loop) (omega arith, ground arith)
      | inr (opener, rest, g) ↦
          let (c, d) = group_loop-From fuel source control (opener ∷ rest) (i + 1) (ground arith) in
          rw (e, f, g, group_loop) (omega arith, d)
    ]
  ]
]

pub skip_group-Ahead :
    (source : Bytes) (start control : ℕ) → Ahead source start (skip_group source start control)
unfolding skip_group
skip_group-Ahead source start control =
    if_cases (Ahead source start) (ltb start (length source) && opens_group (byte_at source start))
      _ _
      (λ e.
        let (a, b) =
          group_loop-From (length source) source control (byte_at source start ∷ []) (start + 1)
            (ground arith) in
        (omega arith, b))
      (λ _. tt)

pub search_step-From :
    (source : Bytes) (control i : ℕ)
    → i < length source
    → From source (suc i) (search_step source control i)
unfolding search_step
search_step-From source control i h = elim (Option-cases (skip_quoted source i control)) [
  | inr (next, f) ↦
      rw (f, search_step) (subst (Ahead source i) f (skip_quoted-Ahead source i control))
  | inl f ↦ elim (Option-cases (skip_group source i control)) [
    | inr (next, g) ↦
        rw (f, g, search_step) (subst (Ahead source i) g (skip_group-Ahead source i control))
    | inl g ↦ rw (f, g, search_step) (omega arith, omega arith)
  ]
]

-- A capture ends at the delimiter or at the end of the source.
pub capture_loop-ends :
    (fuel : ℕ) (source : Bytes) (control delimiter i : ℕ)
    → i ≤ length source
    → length source - i < fuel
    → (j : ℕ) × (capture_loop fuel source control delimiter i ≡ some j) × From source i j
unfolding capture_loop
capture_loop-ends zero source control delimiter i h k = absurd (omega arith)
capture_loop-ends (suc fuel) source control delimiter i h k =
    elim (Bool-cases (ltb i (length source) && not (byte_at source i == delimiter))) [
      | inl e ↦
          let (a, b) = search_step-From source control i (ground arith) in
          let (j, f, (c, d)) =
            capture_loop-ends fuel source control delimiter (search_step source control i) b
              (ground arith) in
          (j, rw (e, capture_loop) f, (omega arith, d))
      | inr e ↦ (i, rw (e, capture_loop) refl, (omega arith, h))
    ]

pub blanks_loop-From :
    (fuel : ℕ) (source : Bytes) (i : ℕ)
    → i ≤ length source
    → From source i (blanks_loop fuel source i)
unfolding blanks_loop
blanks_loop-From zero source i h = (omega arith, h)
blanks_loop-From (suc fuel) source i h =
    elim (Bool-cases (ltb i (length source) && leb (byte_at source i) 32)) [
      | inl e ↦
          let (a, b) = blanks_loop-From fuel source (i + 1) (ground arith) in
          rw (e, blanks_loop) (omega arith, b)
      | inr e ↦ rw (e, blanks_loop) (omega arith, h)
    ]
