-- ===== src/Preprocess/Comments/Masks.antt =====
-- What is left of a line when its comments are gone.
use pawn_parser.Prelude.{ℕ, ◌≡◌, ◌≢◌, ◌&&◌, [], ◌∷◌, Bytes, inl, inr, arith, ◌==◌, Bool-cases}
use pawn_parser.Preprocess.Pattern.{is_quote}
use pawn_parser.Preprocess.Comments.{
  strip_code, strip_quoted, strip_comment, strip_pattern_comments,
}
use pawn_parser.Preprocess.Comments.Parts.{
  InComment, InQuotes, Strips, code, comment_closed, comment_empty, cut, end_of, from_comment,
  from_quotes, in_closed, in_empty, in_last, more_commented, more_escaped, more_quoted, no_slash,
  quoted_last,
}

mutual
  unfolding strip_code strip_quoted strip_comment

  code_Strips : (control : ℕ) (cs : Bytes) → Strips control cs (strip_code control cs)
  code_Strips control [] = end_of
  code_Strips control (c ∷ []) = elim (Bool-cases (is_quote c)) [
    | inl e ↦ quoted_last control c e
    | inr e ↦ code c e (no_slash c) end_of
  ]
  code_Strips control (c ∷ d ∷ cs) = elim (Bool-cases (is_quote c)) [
    | inl e ↦
        rw (e, strip_code)
          (from_quotes control c (d ∷ cs) (strip_quoted control c (d ∷ cs)) e
            (quoted_splits control c (d ∷ cs)))
    | inr e ↦ elim (Bool-cases (c == b'/' && d == b'/')) [
      | inl f ↦
          let p : c ≡ b'/' = ground arith in
          let q : d ≡ b'/' = ground arith in rw (e, f, strip_code) (rw (p, q) (cut cs))
      | inr f ↦ elim (Bool-cases (c == b'/' && d == b'*')) [
        | inl g ↦
            let p : c ≡ b'/' = ground arith in
            let q : d ≡ b'*' = ground arith in
            rw (e, f, g, strip_code)
              (rw (p, q)
                (from_comment control cs (strip_comment control cs) (comment_splits control cs)))
        | inr g ↦ rw (e, f, g, strip_code) (code c e (ground arith) (code_Strips control (d ∷ cs)))
      ]
    ]
  ]

  quoted_splits :
      (control quote : ℕ) (cs : Bytes) → InQuotes control quote cs (strip_quoted control quote cs)
  quoted_splits control quote [] = in_empty control quote
  quoted_splits control quote (c ∷ []) = in_last control quote c
  quoted_splits control quote (c ∷ d ∷ cs) = elim (Bool-cases (c == control)) [
    | inl e ↦
        let p : c ≡ control = ground arith in
        rw (e, strip_quoted)
          (rw p (
            more_escaped control quote d cs (strip_quoted control quote cs)
              (quoted_splits control quote cs)))
    | inr e ↦ elim (Bool-cases (c == quote)) [
      | inl f ↦
          let p : c ≡ quote = ground arith in
          let n : quote ≢ control = λ z. absurd (ground arith) in
          rw (e, f, strip_quoted)
            (rw p (
              in_closed control quote (d ∷ cs) (strip_code control (d ∷ cs)) n
                (code_Strips control (d ∷ cs))))
      | inr f ↦
          let n : c ≢ control = λ z. absurd (ground arith) in
          let m : c ≢ quote = λ z. absurd (ground arith) in
          rw (e, f, strip_quoted)
            (more_quoted control quote c (d ∷ cs) (strip_quoted control quote (d ∷ cs)) n m
              (quoted_splits control quote (d ∷ cs)))
    ]
  ]

  comment_splits : (control : ℕ) (cs : Bytes) → InComment control cs (strip_comment control cs)
  comment_splits control [] = comment_empty control
  comment_splits control (c ∷ []) =
      more_commented control c [] [] (ground arith) (comment_empty control)
  comment_splits control (c ∷ d ∷ cs) = elim (Bool-cases (c == b'*' && d == b'/')) [
    | inl e ↦
        let p : c ≡ b'*' = ground arith in
        let q : d ≡ b'/' = ground arith in
        rw (e, strip_comment)
          (rw (p, q) (comment_closed control cs (strip_code control cs) (code_Strips control cs)))
    | inr e ↦
        rw (e, strip_comment)
          (more_commented control c (d ∷ cs) (strip_comment control (d ∷ cs)) e
            (comment_splits control (d ∷ cs)))
  ]

-- Of a line is left what `Strips` describes: code and texts in quotes, with their escapes, stay; each
-- byte of a comment becomes a blank, but for line ends; and two slashes outside of both are a line
-- end that ends the line.
pub strip_pattern_comments-Strips :
    (source : Bytes) (control : ℕ) → Strips control source (strip_pattern_comments source control)
unfolding strip_pattern_comments
strip_pattern_comments-Strips source control = code_Strips control source
