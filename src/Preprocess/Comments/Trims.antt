-- ===== src/Preprocess/Comments/Trims.antt =====
-- The search for a line end, and the trimming of blanks before it.
use pawn_parser.Prelude.{
  ℕ, zero, suc, ◌+◌, ◌≤◌, ◌<◌, ◌≡◌, ◌≢◌, refl, sym, ap, subst, ◌∙◌, Bool, true, false, ◌&&◌, ◌||◌,
  Bytes, ◌⊎◌, inl, inr, arith, leb, ltb, ◌==◌, ==_iff, Bool-cases, length,
}
use pawn_parser.Preprocess.Pattern.{byte_at}
use pawn_parser.Preprocess.Comments.{line_end_from, trim_blanks}

abbrev pub NoLineEnd : Bytes → ℕ → ℕ → Type 0
NoLineEnd source i j = (k : ℕ) → i ≤ k → k < j → byte_at source k ≢ b'\n'

abbrev pub Blank : Bytes → ℕ → Type 0
Blank source k = (byte_at source k ≡ b' ') ⊎ (byte_at source k ≡ b'\t')

-- What a search for a line end finds.
abbrev Found : Bytes → ℕ → ℕ → Type 0
Found source i e =
    ((e ≡ length source) × NoLineEnd source i (length source))
    ⊎ ((i ≤ e) × (e < length source) × (byte_at source e ≡ b'\n') × NoLineEnd source i e)

one_more :
    (source : Bytes) (i j : ℕ)
    → byte_at source i ≢ b'\n'
    → NoLineEnd source (i + 1) j
    → NoLineEnd source i j
one_more source i j h n k a b = elim (same_or_above i k a) [
  | inl e ↦ λ z. h (ap (byte_at source) e ∙ z)
  | inr l ↦ n k l b
]
  where
    same_or_above : (i k : ℕ) → i ≤ k → (i ≡ k) ⊎ (i + 1 ≤ k)
    same_or_above i k a = ground arith

pub line_end_from-Found :
    (fuel : ℕ) (source : Bytes) (i : ℕ)
    → length source ≤ i + fuel
    → Found source i (line_end_from fuel source i)
unfolding line_end_from
line_end_from-Found zero source i h = inl (refl, λ k a b. absurd (omega arith))
line_end_from-Found (suc fuel) source i h = elim (Bool-cases (leb (length source) i)) [
  | inl e ↦
      let l : length source ≤ i = ground arith in
      inl (rw (e, line_end_from) refl, λ k a b. absurd (omega arith))
  | inr e ↦ elim (Bool-cases (byte_at source i == b'\n')) [
    | inl f ↦ inr (
        rw (e, f, line_end_from)
          (
            omega arith,
            ground arith,
            (==_iff (byte_at source i) b'\n').0 f,
            λ k a b. absurd (omega arith),
          ))
    | inr f ↦
        let n : byte_at source i ≢ b'\n' = λ z. absurd (ground arith) in
        elim (line_end_from-Found fuel source (i + 1) (omega arith)) [
          | inl (g, m) ↦ inl (rw (e, f, line_end_from) g, one_more source i (length source) n m)
          | inr (a, b, c, m) ↦
              inr (rw (e, f, line_end_from) (omega arith, b, c, one_more source i _ n m))
        ]
  ]
]

-- Whether the byte at `t` is trimmed.
abbrev trims : Bytes → ℕ → ℕ → Bool
trims source from t = ltb from (suc t) && (byte_at source t == b' ' || byte_at source t == b'\t')

trim_blanks-trims :
    (source : Bytes) (from t : ℕ)
    → trims source from t ≡ true
    → trim_blanks source from (suc t) ≡ trim_blanks source from t
unfolding trim_blanks
trim_blanks-trims source from t e = rw (e, trim_blanks) refl

trim_blanks-stops :
    (source : Bytes) (from t : ℕ)
    → trims source from t ≡ false
    → trim_blanks source from (suc t) ≡ suc t
unfolding trim_blanks
trim_blanks-stops source from t e = rw (e, trim_blanks) refl

trims-Blank : (source : Bytes) (from t : ℕ) → trims source from t ≡ true → Blank source t
trims-Blank source from t e = elim (Bool-cases (byte_at source t == b' ')) [
  | inl f ↦ inl ((==_iff (byte_at source t) b' ').0 f)
  | inr f ↦ inr ((==_iff (byte_at source t) b'\t').0 (ground arith))
]

Blank-trims : (source : Bytes) (from t : ℕ) → from ≤ t → Blank source t → trims source from t ≡ true
Blank-trims source from t h (inl e) = ground arith
Blank-trims source from t h (inr e) = ground arith

pub same_or_less : (a b : ℕ) → a < suc b → (a ≡ b) ⊎ (a < b)
same_or_less a b h = ground arith

-- Blanks are trimmed, and the text does not grow.
pub trim_blanks-blanks :
    (source : Bytes) (from t : ℕ)
    → (trim_blanks source from t ≤ t)
      × ((k : ℕ) → trim_blanks source from t ≤ k → k < t → Blank source k)
unfolding trim_blanks
trim_blanks-blanks source from zero = (omega arith, λ k a b. absurd (omega arith))
trim_blanks-blanks source from (suc t) = elim (Bool-cases (trims source from t)) [
  | inl e ↦
      let f = trim_blanks-trims source from t e in
      let (l, h) = trim_blanks-blanks source from t in
      (
        omega (arith, f, l),
        λ k a b. elim (same_or_less k t b) [
          | inl q ↦ subst (Blank source) (sym q) (trims-Blank source from t e)
          | inr q ↦ h k (omega (arith, f, a)) q
        ],
      )
  | inr e ↦
      let f = trim_blanks-stops source from t e in
      (omega (arith, f), λ k a b. absurd (omega (arith, f, a, b)))
]

pub trim_blanks-backslash :
    (source : Bytes) (from t q : ℕ)
    → from ≤ q
    → q < t
    → byte_at source q ≡ b'\\'
    → ((k : ℕ) → q < k → k < t → Blank source k)
    → trim_blanks source from t ≡ suc q
trim_blanks-backslash source from zero q a b c d = absurd (omega arith)
trim_blanks-backslash source from (suc t) q a b c d = elim (same_or_less q t b) [
  | inl e ↦
      trim_blanks-stops source from t (not_blank (ap (byte_at source) (sym e) ∙ c)) ∙ ap suc (sym e)
  | inr l ↦
      trim_blanks-trims source from t
        (Blank-trims source from t (omega arith) (d t l (omega arith)))
      ∙ trim_blanks-backslash source from t q a l c (λ k u v. d k u (omega arith))
]
  where
    not_blank : byte_at source t ≡ b'\\' → trims source from t ≡ false
    not_blank e = ground arith
