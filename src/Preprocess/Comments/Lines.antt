-- ===== src/Preprocess/Comments/Lines.antt =====
-- Where a logical line ends, described by the line ends in the text and by what stands before them.
use pawn_parser.Prelude.{
  ℕ, zero, suc, ◌+◌, ◌-◌, ◌≤◌, ◌<◌, ◌≡◌, refl, sym, ap, ◌∙◌, Bool, true, false, ◌&&◌, ◌||◌, Bytes,
  ◌⊎◌, inl, inr, arith, leb, ltb, ◌==◌, ==_iff, if◌then◌else◌, Bool-cases, length, min,
}
use pawn_parser.Preprocess.Pattern.{byte_at}
use pawn_parser.Preprocess.Comments.{
  line_end_from, trim_blanks, trimmed_end, logical_line_loop, source_logical_line_end,
}
use pawn_parser.Preprocess.Comments.Trims.{
  Blank, NoLineEnd, line_end_from-Found, same_or_less, trim_blanks-backslash, trim_blanks-blanks,
}

-- The line from `from` to the line end at `i` goes on behind it: there is a backslash with only blanks
-- behind it, and perhaps a carriage return right before the line end.
pub record Continues (source : Bytes) (from i : ℕ) : Type 0 where
  pub backslash : ℕ
  pub tail : ℕ
  pub after_start : from ≤ backslash
  pub before_tail : backslash < tail
  pub is_backslash : byte_at source backslash ≡ b'\\'
  pub blanks : (k : ℕ) → backslash < k → k < tail → Blank source k
  pub tail_is : (tail ≡ i) ⊎ ((suc tail ≡ i) × (byte_at source tail ≡ b'\r'))

-- The logical line of a place ends behind the first line end that it does not go on behind, or at the
-- end of the text.
pub data LogicalLine (source : Bytes) : ℕ → ℕ → Type 0 where
  last :
      (from : ℕ) → NoLineEnd source from (length source) → LogicalLine source from (length source)
  stops :
      (from i : ℕ)
      → from ≤ i
      → i < length source
      → byte_at source i ≡ b'\n'
      → NoLineEnd source from i
      → (Continues source from i → ⊥)
      → LogicalLine source from (i + 1)
  goes_on :
      {r : ℕ} (from i : ℕ)
      → from ≤ i
      → i < length source
      → byte_at source i ≡ b'\n'
      → NoLineEnd source from i
      → Continues source from i
      → LogicalLine source (i + 1) r
      → LogicalLine source from r

-- The test of `sourceLogicalLineEnd` for a line end at `i`.
abbrev goes : Bytes → ℕ → ℕ → Bool
goes source from i =
    ltb from (trimmed_end source from i) && byte_at source (trimmed_end source from i - 1) == b'\\'

-- The line without a carriage return at its end.
abbrev tail_of : Bytes → ℕ → ℕ → ℕ
tail_of source from i = if ltb from i && byte_at source (i - 1) == b'\r' then i - 1 else i

goes-Continues : (source : Bytes) (from i : ℕ) → goes source from i ≡ true → Continues source from i
unfolding trimmed_end
goes-Continues source from i e =
    let t = tail_of source from i in
    let r = trim_blanks source from t in
    let (l, h) = trim_blanks-blanks source from t in
    let a : from < r = ground arith in
    record {
      backslash = r - 1;
      tail = t;
      after_start = omega arith;
      before_tail = omega arith;
      is_backslash = (==_iff (byte_at source (r - 1)) b'\\').0 (ground arith);
      blanks = λ k u v. h k (omega arith) v;
      tail_is = tail_cases (Bool-cases (ltb from i && byte_at source (i - 1) == b'\r'));
    }
  where
    tail_cases :
        ((ltb from i && byte_at source (i - 1) == b'\r') ≡ true)
          ⊎ ((ltb from i && byte_at source (i - 1) == b'\r') ≡ false)
        → (tail_of source from i ≡ i)
          ⊎ ((suc (tail_of source from i) ≡ i) × (byte_at source (tail_of source from i) ≡ b'\r'))
    tail_cases (inl f) =
        inr (rw f (ground arith, (==_iff (byte_at source (i - 1)) b'\r').0 (ground arith)))
    tail_cases (inr f) = inl (rw f refl)

Continues-tail :
    (source : Bytes) (from i : ℕ) → (c : Continues source from i) → tail_of source from i ≡ c.tail
Continues-tail source from i c = by_tail c.tail_is
  where
    no_return :
        (byte_at source (i - 1) ≡ b'\\') ⊎ Blank source (i - 1)
        → (ltb from i && byte_at source (i - 1) == b'\r') ≡ false
    no_return (inl e) = ground arith
    no_return (inr (inl e)) = ground arith
    no_return (inr (inr e)) = ground arith

    by_tail :
        (c.tail ≡ i) ⊎ ((suc c.tail ≡ i) × (byte_at source c.tail ≡ b'\r'))
        → tail_of source from i ≡ c.tail
    by_tail (inl e) =
        let n : (ltb from i && byte_at source (i - 1) == b'\r') ≡ false =
          no_return (elim (same_or_less c.backslash (i - 1) (omega (arith, e, c.before_tail))) [
            | inl q ↦ inl (ap (byte_at source) (sym q) ∙ c.is_backslash)
            | inr q ↦ inr (c.blanks (i - 1) q (omega (arith, e, q)))
          ]) in
        rw n (sym e)
    by_tail (inr (e, f)) =
        let p : i - 1 ≡ c.tail = omega (arith, e) in
        let g = ap (byte_at source) p ∙ f in
        let l : from < i = omega (arith, e, c.before_tail, c.after_start) in
        let n : (ltb from i && byte_at source (i - 1) == b'\r') ≡ true = ground arith in rw n p

Continues-goes : (source : Bytes) (from i : ℕ) → Continues source from i → goes source from i ≡ true
unfolding trimmed_end
Continues-goes source from i c =
    let t : tail_of source from i ≡ c.tail = Continues-tail source from i c in
    let r =
      ap (trim_blanks source from) t
      ∙ trim_blanks-backslash source from c.tail c.backslash c.after_start c.before_tail
          c.is_backslash c.blanks in
    rw r (found c.backslash c.after_start c.is_backslash)
  where
    found :
        (q : ℕ)
        → from ≤ q
        → byte_at source q ≡ b'\\'
        → (ltb from (suc q) && byte_at source (suc q - 1) == b'\\') ≡ true
    found q a b = let e : suc q - 1 ≡ q = omega arith in rw e (ground arith)

logical_line_loop-LogicalLine :
    (fuel : ℕ) (source : Bytes) (from : ℕ)
    → from ≤ length source
    → length source - from < fuel
    → LogicalLine source from (logical_line_loop fuel source from)
unfolding logical_line_loop
logical_line_loop-LogicalLine zero source from h n = absurd (omega arith)
logical_line_loop-LogicalLine (suc fuel) source from h n =
    let i = line_end_from (length source) source from in
    elim (line_end_from-Found (length source) source from (omega arith)) [
      | inl (e, none_found) ↦
          let t : (leb (length source) from || leb (length source) i) ≡ true = ground arith in
          rw (t, logical_line_loop) (last from none_found)
      | inr (a, b, c, none_before) ↦
          let t : (leb (length source) from || leb (length source) i) ≡ false = ground arith in
          elim (Bool-cases (goes source from i)) [
            | inl g ↦
                rw (t, g, logical_line_loop)
                  (goes_on from i a b c none_before (goes-Continues source from i g)
                    (logical_line_loop-LogicalLine fuel source (i + 1) (omega arith) (omega arith)))
            | inr g ↦
                let m : min (i + 1) (length source) ≡ i + 1 = omega arith in
                rw (t, g, logical_line_loop, m)
                  (stops from i a b c none_before
                    (λ k. absurd (cc (Continues-goes source from i k, g))))
          ]
    ]

-- From a place in the text, or from its end for a place behind it, the logical line ends behind the
-- first line end that no backslash before it lets the line go on behind, where blanks and a carriage
-- return may stand between the two; and at the end of the text if there is no such line end.
pub source_logical_line_end-LogicalLine :
    (source : Bytes) (offset : ℕ)
    → LogicalLine source (min offset (length source)) (source_logical_line_end source offset)
unfolding source_logical_line_end
source_logical_line_end-LogicalLine source offset =
    logical_line_loop-LogicalLine (length source + 1) source (min offset (length source))
      (omega arith) (omega arith)
