-- ===== src/Preprocess/Substitute/Text.antt =====
-- The text of a replacement, by an independent description.
use pawn_parser.Prelude.{
  ℕ, ◌+◌, ◌<◌, ◌≡◌, refl, sym, ap, ◌∙◌, Bool, true, false, not, ◌&&◌, List, [], ◌∷◌, ◌++◌, Bytes,
  Option, none, some, arith, ◌==◌, Bool-cases, inl, inr, length, slice, length-append, append_assoc,
  append-nil,
}
use pawn_parser.Lexer.Attach.Slices.{slice_between}
use pawn_parser.Preprocess.Frame.{ByteRange}
use pawn_parser.Preprocess.Pattern.{is_decimal}
use pawn_parser.Preprocess.Substitute.{
  Segment, Replacement, no_replacement, append_text, append_literal, append_capture, range_of,
  substitute_loop, substitute_macro_body,
}

-- The text that stands for a label: its capture, or its own spelling.
abbrev pub spelled : Bytes → Option ByteRange → ℕ → Bytes
spelled input none digit = b'%' ∷ digit ∷ []
spelled input (some range) digit = slice input range.start range.end

-- A macro's text with each label outside of strings put in place.
unfoldable pub filled : Bytes → (ℕ → Option ByteRange) → Bool → Bytes → Bytes
filled input ranges in_string [] = []
filled input ranges in_string (c ∷ []) = c ∷ []
filled input ranges in_string (c ∷ d ∷ cs) = elim (c == b'"') [
  | true ↦ c ∷ filled input ranges (not in_string) (d ∷ cs)
  | false ↦ elim (not in_string && c == b'%' && is_decimal d) [
    | true ↦ spelled input (ranges d) d ++ filled input ranges in_string cs
    | false ↦ c ∷ filled input ranges in_string (d ∷ cs)
  ]
]

append_text-text :
    {O : Type 0} (text : Bytes) (parent : O) (r : Replacement O)
    → (append_text text parent r).text ≡ r.text ++ text
unfolding append_text
append_text-text [] parent r = sym (append-nil r.text)
append_text-text (c ∷ cs) parent r = refl

-- The segments from `n` on are not empty and lie one behind the other, up to `end`.
abbrev pub Tiled : {O : Type 0} → ℕ → ℕ → List (Segment O) → Type 0
Tiled n end [] = n ≡ end
Tiled n end (s ∷ ss) = (s.start ≡ n) × (n < s.end) × Tiled s.end end ss

Tiled-append :
    {O : Type 0} (n m : ℕ) (ss : List (Segment O)) (s : Segment O)
    → Tiled n m ss
    → s.start ≡ m
    → m < s.end
    → Tiled n s.end (ss ++ (s ∷ []))
Tiled-append n m [] s t e l = (e ∙ sym t, omega arith, refl)
Tiled-append n m (x ∷ ss) s (a, b, t) e l = (a, b, Tiled-append x.end m ss s t e l)

append_text-Tiled :
    {O : Type 0} (text : Bytes) (parent : O) (r : Replacement O)
    → Tiled 0 (length r.text) r.segments
    → Tiled 0 (length (append_text text parent r).text) (append_text text parent r).segments
unfolding append_text
append_text-Tiled [] parent r t = t
append_text-Tiled (c ∷ cs) parent r t =
    Tiled-append 0 (length r.text) r.segments _ t refl
      (omega (arith, length-append r.text (c ∷ cs)))

module _ {O : Type 0} (body input : Bytes) (args : List (ℕ × ByteRange))
    (literal_origin : ℕ → ℕ → O) (capture_origin : ByteRange → O) where
  abbrev loop : Bytes → ℕ → Bool → ℕ → Replacement O → Replacement O
  loop = substitute_loop body input args literal_origin capture_origin

  abbrev pub ranges : ℕ → Option ByteRange
  ranges = range_of body input args literal_origin capture_origin

  append_capture-text :
      (before after : Bytes) (digit : ℕ) (o : Option ByteRange) (r : Replacement O)
      → body ≡ before ++ ((b'%' ∷ digit ∷ []) ++ after)
      → (append_capture body input args literal_origin capture_origin (length before) o r).text
        ≡ r.text ++ spelled input o digit
  unfolding append_capture
  append_capture-text before after digit none r e =
      append_text-text _ _ r
      ∙ ap (λ xs. r.text ++ xs)
          (ap (λ b. slice b (length before) (length before + 2)) e
            ∙ slice_between before (b'%' ∷ digit ∷ []) after _ _ refl refl)
  append_capture-text before after digit (some range) r e = append_text-text _ _ r

  abbrev no_bytes : Bytes
  no_bytes = []

  -- The rest of the macro's text is copied at the end.
  last_literal-text :
      (before mid : Bytes) (r : Replacement O)
      → body ≡ before ++ (mid ++ [])
      → (append_literal body input args literal_origin capture_origin
          (length before)
          (length body)
          r).text
        ≡ r.text ++ mid
  last_literal-text before mid r e =
      append_text-text _ _ r
      ∙ ap (λ xs. r.text ++ xs)
          (ap (λ b. slice b (length before) (length body)) e
            ∙ slice_between before mid [] _ _ refl (
                ap length e
                ∙ omega (arith, length-append before (mid ++ []), length-append mid no_bytes)))

  -- One more byte that is left to be copied.
  longer : (mid : Bytes) (c : ℕ) (xs : Bytes) → (mid ++ (c ∷ [])) ++ xs ≡ mid ++ (c ∷ xs)
  longer mid c xs = append_assoc mid (c ∷ []) xs

  -- The text so far, the part of the macro's text that has not been copied, and what is to come.
  substitute_loop-text :
      (before mid rest : Bytes) (index : ℕ) (in_string : Bool) (r : Replacement O)
      → body ≡ before ++ (mid ++ rest)
      → index ≡ length before + length mid
      → (loop rest index in_string (length before) r).text
        ≡ r.text ++ (mid ++ filled input ranges in_string rest)
  unfolding substitute_loop filled
  substitute_loop-text before mid [] index in_string r e f =
      last_literal-text before mid r e ∙ ap (λ xs. r.text ++ xs) (sym (append-nil mid))
  substitute_loop-text before mid (c ∷ []) index in_string r e f =
      last_literal-text before (mid ++ (c ∷ [])) r
        (e ∙ ap (λ xs. before ++ xs) (sym (longer mid c [])))
  substitute_loop-text before mid (c ∷ d ∷ cs) index in_string r e f =
      let kept : (b : Bool)
          → (loop (d ∷ cs) (index + 1) b (length before) r).text
            ≡ r.text ++ (mid ++ (c ∷ filled input ranges b (d ∷ cs))) =
        λ b.
          substitute_loop-text before (mid ++ (c ∷ [])) (d ∷ cs) (index + 1) b r
            (e ∙ ap (λ xs. before ++ xs) (sym (longer mid c (d ∷ cs))))
            (omega (arith, f, length-append mid (c ∷ [])))
          ∙ ap (λ xs. r.text ++ xs) (longer mid c (filled input ranges b (d ∷ cs))) in
      elim (Bool-cases (c == b'"')) [
        | inl q ↦ rw (q, substitute_loop, filled) (kept (not in_string))
        | inr q ↦ elim (Bool-cases (not in_string && c == b'%' && is_decimal d)) [
          | inr l ↦ rw (q, l, substitute_loop, filled) (kept in_string)
          | inl l ↦
              let p : c ≡ b'%' = ground arith in
              let whole : body ≡ (before ++ mid) ++ ((b'%' ∷ d ∷ []) ++ cs) =
                e
                ∙ ap (λ x. before ++ (mid ++ (x ∷ d ∷ cs))) p
                ∙ sym (append_assoc before mid (b'%' ∷ d ∷ cs)) in
              let next = (before ++ mid) ++ (b'%' ∷ d ∷ []) in
              let lit =
                append_literal body input args literal_origin capture_origin (length before) index
                  r in
              let new =
                append_capture body input args literal_origin capture_origin index (ranges d) lit in
              let at_index : length (before ++ mid) ≡ index =
                omega (arith, f, length-append before mid) in
              let at_next : length next ≡ index + 2 =
                omega (arith, at_index, length-append (before ++ mid) (b'%' ∷ d ∷ [])) in
              let lit_text : lit.text ≡ r.text ++ mid =
                append_text-text _ _ r
                ∙ ap (λ xs. r.text ++ xs)
                    (ap (λ b. slice b (length before) index) e
                      ∙ slice_between before mid (c ∷ d ∷ cs) _ _ refl f) in
              let new_text : new.text ≡ (r.text ++ mid) ++ spelled input (ranges d) d =
                ap
                  (λ n.
                    (append_capture body input args literal_origin capture_origin n (ranges d)
                      lit).text)
                  (sym at_index)
                ∙ append_capture-text (before ++ mid) cs d (ranges d) lit whole
                ∙ ap (λ xs. xs ++ spelled input (ranges d) d) lit_text in
              rw (q, l, substitute_loop, filled)
                (ap (λ n. (loop cs n in_string n new).text) (sym at_next)
                  ∙ substitute_loop-text next [] cs (length next) in_string new
                      (whole ∙ sym (append_assoc (before ++ mid) (b'%' ∷ d ∷ []) cs)) (omega arith)
                  ∙ ap (λ xs. xs ++ filled input ranges in_string cs) new_text
                  ∙ append_assoc (r.text ++ mid) (spelled input (ranges d) d)
                      (filled input ranges in_string cs)
                  ∙ append_assoc r.text mid _)
        ]
      ]

  -- The pieces of a replacement, in order and with nothing between them.
  substitute_loop-Tiled :
      (rest : Bytes) (index : ℕ) (in_string : Bool) (start : ℕ) (r : Replacement O)
      → Tiled 0 (length r.text) r.segments
      → Tiled 0
          (length (loop rest index in_string start r).text)
          (loop rest index in_string start r).segments
  unfolding substitute_loop append_capture
  substitute_loop-Tiled [] index in_string start r t = append_text-Tiled _ _ r t
  substitute_loop-Tiled (c ∷ []) index in_string start r t = append_text-Tiled _ _ r t
  substitute_loop-Tiled (c ∷ d ∷ cs) index in_string start r t = elim (Bool-cases (c == b'"')) [
    | inl q ↦
        rw (q, substitute_loop)
          (substitute_loop-Tiled (d ∷ cs) (index + 1) (not in_string) start r t)
    | inr q ↦ elim (Bool-cases (not in_string && c == b'%' && is_decimal d)) [
      | inr l ↦
          rw (q, l, substitute_loop)
            (substitute_loop-Tiled (d ∷ cs) (index + 1) in_string start r t)
      | inl l ↦
          rw (q, l, substitute_loop)
            (substitute_loop-Tiled cs (index + 2) in_string (index + 2) _
              (captured_Tiled index (ranges d) _ (append_text-Tiled _ _ r t)))
    ]
  ]
    where
      captured_Tiled :
          (index : ℕ) (o : Option ByteRange) (r : Replacement O)
          → Tiled 0 (length r.text) r.segments
          → Tiled 0
              (length (append_capture body input args literal_origin capture_origin index o r).text)
              (append_capture body input args literal_origin capture_origin index o r).segments
      captured_Tiled index none r t = append_text-Tiled _ _ r t
      captured_Tiled index (some range) r t = append_text-Tiled _ _ r t

  -- The replacement of a macro is its text with each label outside of strings replaced by the part of
  -- the input that it captured, or kept where it has no capture within the input; its segments are
  -- not empty and lie one behind the other from the start to the end of that text.
  pub substitute_macro_body-filled :
      ((substitute_macro_body body input args literal_origin capture_origin).text
        ≡ filled input ranges false body)
      × Tiled 0
          (length (substitute_macro_body body input args literal_origin capture_origin).text)
          (substitute_macro_body body input args literal_origin capture_origin).segments
  unfolding substitute_macro_body
  substitute_macro_body-filled = (
    substitute_loop-text [] [] body 0 false no_replacement refl refl,
    substitute_loop-Tiled body 0 false 0 no_replacement refl,
  )
