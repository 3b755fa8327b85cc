-- ===== src/Preprocess/Substitute/Filled.antt =====
-- The text of a replacement, described by the entries of the map of captures.
use pawn_parser.Prelude.{
  ℕ, ◌+◌, ◌-◌, ◌≤◌, ◌<◌, ◌≡◌, ◌≢◌, sym, subst, ◌⊎◌, inl, inr, Bool, true, false, not, ◌&&◌, List,
  [], ◌∷◌, ◌++◌, Bytes, Option, none, some, arith, leb, ◌==◌, Bool-cases, length, slice,
}
use pawn_parser.Preprocess.Frame.{ByteRange}
use pawn_parser.Preprocess.Pattern.{is_decimal}
use pawn_parser.Preprocess.Substitute.{capture_of, usable, range_of, substitute_macro_body}
use pawn_parser.Preprocess.Substitute.Text.{spelled, filled, Tiled, substitute_macro_body-filled}

-- The newest entry of a label.
pub data Newest (label : ℕ) : List (ℕ × ByteRange) → Option ByteRange → Type 0 where
  missing : Newest label [] none
  newest :
      (range : ByteRange) (args : List (ℕ × ByteRange))
      → Newest label ((label, range) ∷ args) (some range)
  older :
      {o : Option ByteRange} (key : ℕ) (range : ByteRange) (args : List (ℕ × ByteRange))
      → key ≢ label
      → Newest label args o
      → Newest label ((key, range) ∷ args) o

-- The text of a macro, of which a part may be in a string, and what replaces it.
pub data Filled (input : Bytes) (args : List (ℕ × ByteRange)) : Bool → Bytes → Bytes → Type 0 where
  ends : (in_string : Bool) → Filled input args in_string [] []
  quote :
      {cs ds : Bytes} (in_string : Bool)
      → Filled input args (not in_string) cs ds
      → Filled input args in_string (b'"' ∷ cs) (b'"' ∷ ds)
  -- A label stands for what it captured, when that lies within the input.
  put :
      {cs ds : Bytes} (label : ℕ) (range : ByteRange)
      → label < 10
      → Newest label args (some range)
      → range.start ≤ range.end
      → range.end ≤ length input
      → Filled input args false cs ds
      → Filled input args false
          (b'%' ∷ (b'0' + label) ∷ cs)
          (slice input range.start range.end ++ ds)
  missing :
      {cs ds : Bytes} (label : ℕ)
      → label < 10
      → Newest label args none
      → Filled input args false cs ds
      → Filled input args false (b'%' ∷ (b'0' + label) ∷ cs) (b'%' ∷ (b'0' + label) ∷ ds)
  outside :
      {cs ds : Bytes} (label : ℕ) (range : ByteRange)
      → label < 10
      → Newest label args (some range)
      → (range.end < range.start) ⊎ (length input < range.end)
      → Filled input args false cs ds
      → Filled input args false (b'%' ∷ (b'0' + label) ∷ cs) (b'%' ∷ (b'0' + label) ∷ ds)
  in_quotes :
      {cs ds : Bytes} (c : ℕ)
      → c ≢ b'"'
      → Filled input args true cs ds
      → Filled input args true (c ∷ cs) (c ∷ ds)
  other :
      {cs ds : Bytes} (c : ℕ)
      → c ≢ b'"'
      → c ≢ b'%'
      → Filled input args false cs ds
      → Filled input args false (c ∷ cs) (c ∷ ds)
  no_label :
      {cs ds : Bytes} (d : ℕ)
      → (d < b'0') ⊎ (b'9' < d)
      → Filled input args false (d ∷ cs) ds
      → Filled input args false (b'%' ∷ d ∷ cs) (b'%' ∷ ds)
  last_byte : (in_string : Bool) (c : ℕ) → Filled input args in_string (c ∷ []) (c ∷ [])

capture_of-Newest :
    (args : List (ℕ × ByteRange)) (label : ℕ) → Newest label args (capture_of args label)
unfolding capture_of
capture_of-Newest [] label = missing
capture_of-Newest ((key, range) ∷ args) label = elim (Bool-cases (key == label)) [
  | inl e ↦
      rw (e, capture_of)
        (let q : label ≡ key = ground arith in
          subst (λ k. Newest k ((key, range) ∷ args) (some range)) (sym q) (newest range args))
  | inr e ↦
      rw (e, capture_of)
        (older key range args (λ z. absurd (ground arith)) (capture_of-Newest args label))
]

module _ {O : Type 0} (body input : Bytes) (args : List (ℕ × ByteRange))
    (literal_origin : ℕ → ℕ → O) (capture_origin : ByteRange → O) where
  abbrev ranges : ℕ → Option ByteRange
  ranges = range_of body input args literal_origin capture_origin

  -- A label is replaced as its newest entry says.
  label-Filled :
      (label : ℕ) (cs ds : Bytes) (o : Option ByteRange)
      → label < 10
      → Newest label args o
      → Filled input args false cs ds
      → Filled input args false
          (b'%' ∷ (b'0' + label) ∷ cs)
          (spelled input (usable input o) (b'0' + label) ++ ds)
  unfolding usable
  label-Filled label cs ds none h n f = missing label h n f
  label-Filled label cs ds (some range) h n f =
      elim (Bool-cases (leb range.start range.end && leb range.end (length input))) [
        | inl e ↦ rw (e, usable) (put label range h n (ground arith) (ground arith) f)
        | inr e ↦ rw (e, usable) (outside label range h n (ground arith) f)
      ]

  decimal : (d : ℕ) → is_decimal d ≡ true → (d ≡ b'0' + (d - b'0')) × (d - b'0' < 10)
  decimal d e = (ground arith, ground arith)

  kept :
      (c d : ℕ) (cs ds : Bytes)
      → c ≢ b'"'
      → ((c == b'%') ≡ true) ⊎ ((c == b'%') ≡ false)
      → (c == b'%' && is_decimal d) ≡ false
      → Filled input args false (d ∷ cs) ds
      → Filled input args false (c ∷ d ∷ cs) (c ∷ ds)
  kept c d cs ds n (inl e) f h =
      let p : c ≡ b'%' = ground arith in
      let o : (d < b'0') ⊎ (b'9' < d) = ground arith in rw p (no_label d o h)
  kept c d cs ds n (inr e) f h = other c n (λ z. absurd (ground arith)) h

  filled-Filled :
      (in_string : Bool) (cs : Bytes)
      → Filled input args in_string cs (filled input ranges in_string cs)
  unfolding filled
  filled-Filled in_string [] = ends in_string
  filled-Filled in_string (c ∷ []) = last_byte in_string c
  filled-Filled true (c ∷ d ∷ cs) = elim (Bool-cases (c == b'"')) [
    | inl e ↦
        let p : c ≡ b'"' = ground arith in
        rw (e, filled) (rw p (quote true (filled-Filled false (d ∷ cs))))
    | inr e ↦
        rw (e, filled) (in_quotes c (λ z. absurd (ground arith)) (filled-Filled true (d ∷ cs)))
  ]
  filled-Filled false (c ∷ d ∷ cs) = elim (Bool-cases (c == b'"')) [
    | inl e ↦
        let p : c ≡ b'"' = ground arith in
        rw (e, filled) (rw p (quote false (filled-Filled true (d ∷ cs))))
    | inr e ↦ elim (Bool-cases (c == b'%' && is_decimal d)) [
      | inl f ↦
          let p : c ≡ b'%' = ground arith in
          let (q, l) = decimal d (ground arith) in
          rw (e, f, filled)
            (rw p (
              subst
                (λ n.
                  Filled input args false (b'%' ∷ n ∷ cs)
                    (spelled input (ranges d) n ++ filled input ranges false cs))
                (sym q)
                (label-Filled (d - b'0') cs (filled input ranges false cs)
                  (capture_of args (d - b'0')) l (capture_of-Newest args (d - b'0'))
                  (filled-Filled false cs))))
      | inr f ↦
          rw (e, f, filled)
            (kept c d cs (filled input ranges false (d ∷ cs)) (λ z. absurd (ground arith))
              (Bool-cases (c == b'%')) f (filled-Filled false (d ∷ cs)))
    ]
  ]

  -- The replacement of a macro's text is that text with each label outside of strings replaced by the
  -- part of the input that its newest capture tells, or kept where it has no capture or one that is
  -- not a range of the input; its segments are not empty and lie one behind the other from the start
  -- to the end of the replacement.
  pub substitute_macro_body-Filled :
      Filled input args false body
        (substitute_macro_body body input args literal_origin capture_origin).text
      × Tiled 0
          (length (substitute_macro_body body input args literal_origin capture_origin).text)
          (substitute_macro_body body input args literal_origin capture_origin).segments
  substitute_macro_body-Filled =
      let (e, t) = substitute_macro_body-filled body input args literal_origin capture_origin in
      (subst (Filled input args false body) (sym e) (filled-Filled false body), t)
