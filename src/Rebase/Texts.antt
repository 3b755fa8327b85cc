-- ===== src/Rebase/Texts.antt =====
-- What a shifted range holds of the text behind an edit.
use pawn_parser.Prelude.{
  ◌⊎◌, inl, inr, ℕ, ◌+◌, ◌-◌, ◌^◌, ◌≤◌, ◌<◌, ◌≡◌, refl, sym, ap, ap₂, ◌∙◌, true, false, ◌++◌, Bytes,
  some, arith, ltb, leb, length, length-append, slice, take, drop,
}
use pawn_parser.Token.Compact.{compact_uint}
use pawn_parser.Preprocess.Frame.{ByteRange}
use pawn_parser.Rebase.{shifted_start, shifted_end}
use pawn_parser.Rebase.Pieces.{slice-append_left, slice-append_right, slice-append_around}

module _ (pre old new post : Bytes) where
  abbrev pub before : ByteRange
  before = record { start = length pre; end = length pre + length old }

  abbrev pub after : ByteRange
  after = record { start = length pre; end = length pre + length new }

  abbrev pub old_source : Bytes
  old_source = pre ++ (old ++ post)

  abbrev pub new_source : Bytes
  new_source = pre ++ (new ++ post)

  length-old : length old_source ≡ length pre + (length old + length post)
  length-old = omega (arith, length-append pre (old ++ post), length-append old post)

  length-new : length new_source ≡ length pre + (length new + length post)
  length-new = omega (arith, length-append pre (new ++ post), length-append new post)

  start_before : (i : ℕ) → i < length pre → shifted_start i before after ≡ some i
  unfolding shifted_start
  start_before i h = let e : ltb i (length pre) ≡ true = ground arith in rw e refl

  end_before : (i : ℕ) → i ≤ length pre → shifted_end i before after ≡ some i
  unfolding shifted_end
  end_before i h = let e : leb i (length pre) ≡ true = ground arith in rw e refl

  module _ (small : length new_source < 2 ^ 32) where
    fits : (i : ℕ) → i < 2 ^ 32 → compact_uint i ≡ some i
    unfolding compact_uint
    fits i h = let e : ltb i (2 ^ 32) ≡ true = ground arith in rw e refl

    start_behind :
        (i : ℕ)
        → length pre + length old ≤ i
        → i ≤ length old_source
        → shifted_start i before after ≡ some (i + length new - length old)
    unfolding shifted_start
    start_behind i h l =
        let e : ltb i (length pre) ≡ false = ground arith in
        let f : leb (length pre + length old) i ≡ true = ground arith in
        let v : i + (length pre + length new) - (length pre + length old)
            ≡ i + length new - length old =
          omega arith in
        rw (e, f, v)
          (fits (i + length new - length old) (omega (arith, small, length-old, length-new)))

    end_behind :
        (i : ℕ)
        → length pre + length old ≤ i
        → length pre < i
        → i ≤ length old_source
        → shifted_end i before after ≡ some (i + length new - length old)
    unfolding shifted_end
    end_behind i h g l =
        let e : leb i (length pre) ≡ false = ground arith in
        let f : leb (length pre + length old) i ≡ true = ground arith in
        let v : i + (length pre + length new) - (length pre + length old)
            ≡ i + length new - length old =
          omega arith in
        rw (e, f, v)
          (fits (i + length new - length old) (omega (arith, small, length-old, length-new)))

    -- A range is shifted to one that holds `text`.
    abbrev pub ShiftsTo : ℕ → ℕ → Bytes → Type 0
    ShiftsTo i j text =
        (k : ℕ) × (l : ℕ) × (shifted_start i before after ≡ some k)
        × (shifted_end j before after ≡ some l)
        × (slice new_source k l ≡ text)

    -- When an edit replaces a part of a text that has less than 2 ^ 32 bytes then, a range before or behind
    -- that part, which is not empty, is shifted to one that holds the same.
    pub shifted-same :
        (i j : ℕ)
        → i < j
        → j ≤ length old_source
        → (j ≤ length pre) ⊎ (length pre + length old ≤ i)
        → ShiftsTo i j (slice old_source i j)
    shifted-same i j h l (inl b) = ahead b
      where
        ahead : j ≤ length pre → ShiftsTo i j (slice old_source i j)
        ahead b = (
          i,
          j,
          start_before i (omega arith),
          end_before j b,
          slice-append_left pre (new ++ post) i j (omega arith) b
              ∙ sym (slice-append_left pre (old ++ post) i j (omega arith) b),
        )
    shifted-same i j h l (inr b) = behind b
      where
        behind : length pre + length old ≤ i → ShiftsTo i j (slice old_source i j)
        behind b =
            let k = i + length new - length old in
            let m = j + length new - length old in
            (
              k,
              m,
              start_behind i b (omega arith),
              end_behind j (omega arith) (omega arith) l,
              slice-append_right pre (new ++ post) k m (omega arith) (omega arith)
                  ∙ slice-append_right new post (k - length pre) (m - length pre) (omega arith)
                      (omega arith)
                  ∙ ap₂ (λ a b. slice post a b) (omega arith) (omega arith)
                  ∙ sym (
                      slice-append_right pre (old ++ post) i j (omega arith) (omega arith)
                      ∙ slice-append_right old post (i - length pre) (j - length pre) (omega arith)
                          (omega arith)),
            )

    -- When an edit replaces a part of a text that has less than 2 ^ 32 bytes then, a range that begins
    -- before that part and goes to its end or on is shifted to one that holds the same with the part
    -- replaced.
    pub shifted-replaced :
        (i j : ℕ)
        → i < length pre
        → length pre + length old ≤ j
        → length pre < j
        → j ≤ length old_source
        → (slice old_source i j ≡ drop i pre ++ (old ++ take (j - (length pre + length old)) post))
          × ShiftsTo i j (drop i pre ++ (new ++ take (j - (length pre + length old)) post))
    shifted-replaced i j a b c l =
        let m = j + length new - length old in
        (
          slice-append_around pre old post i j (omega arith) b,
          (
            i,
            m,
            start_before i a,
            end_behind j b c l,
            slice-append_around pre new post i m (omega arith) (omega arith)
                ∙ ap (λ n. drop i pre ++ (new ++ take n post)) (omega arith),
          ),
        )
