-- ===== src/Lexer/Scans/Kinds.antt =====
-- No scan of a byte reports the end of the file.
use pawn_parser.Prelude.{
  subst, ℕ, ◌≡◌, refl, Bool, true, false, not, ◌&&◌, ◌||◌, arith, ◌==◌, if_cases, Bool-cases, inl,
  inr, List, [], ◌∷◌, Bytes, Option, none, some, bytes_eq, slice, ◌+◌,
}
use pawn_parser.Token.Kind.{Kind, kind_eq}
use pawn_parser.Token.Keyword.{keywords, lookup, lookup_keyword}
use pawn_parser.Token.Types.{Position}
use pawn_parser.Lexer.Scanner.{
  RawToken, Scanner, here, at_end, peek, peek_at, advance, emit, rounds, advance_while,
}
use pawn_parser.Lexer.Words.{
  is_digit, is_ident_char, is_ident_start, is_blank, is_macro_param_char, word_kind,
  scan_whitespace, scan_line_comment, scan_block_comment, scan_identifier, scan_number,
  scan_macro_param, number_token, scan_exponent, scan_fraction, scan_digits_with_separators,
}
use pawn_parser.Lexer.Literals.{scan_string, scan_char, string_kind, quoted_token, quoted_loop}
use pawn_parser.Lexer.Operators.{
  multi_operator_kind, single_operator_kind, single_operator, operator, scan_operator, consume_op,
}
use pawn_parser.Lexer.Raw.{at_continuation, scan_continuation, dispatch, next_raw}

abbrev IsOther : Kind → Type 0
IsOther k = kind_eq k Kind.eof ≡ false

-- What holds of every keyword's kind holds of what the table gives.
abbrev all_words : (Kind → Bool) → List (Bytes × Kind) → Bool
all_words p [] = true
all_words p ((word, k) ∷ ws) = p k && all_words p ws

and_true : (a b : Bool) → a && b ≡ true → (a ≡ true) × (b ≡ true)
and_true a b h = ground arith

pub lookup_all :
    (p : Kind → Bool) (text : Bytes) (ws : List (Bytes × Kind)) {k : Kind}
    → all_words p ws ≡ true
    → lookup text ws ≡ some k
    → p k ≡ true
unfolding lookup
lookup_all p text [] a e = cc
lookup_all p text ((word, j) ∷ ws) {k} a e = elim (Bool-cases (bytes_eq word text)) [
  | inl t ↦
      let found : some j ≡ some k = rw (t, lookup) at e in
      let same : j ≡ k = cc in subst (λ x. p x ≡ true) same (and_true (p j) (all_words p ws) a).0
  | inr t ↦ lookup_all p text ws (and_true (p j) (all_words p ws) a).1 (rw (t, lookup) at e)
]

word_kind-IsOther :
    (text : Bytes) (o : Option Kind) → lookup_keyword text ≡ o → IsOther (word_kind o)
unfolding lookup_keyword word_kind kind_eq
word_kind-IsOther text none e = refl
word_kind-IsOther text (some k) e =
    ground (arith, lookup_all (λ k. not (kind_eq k Kind.eof)) text keywords refl e)

scan_identifier-IsOther :
    (start : Position) (s : Scanner) → IsOther (scan_identifier start s).0.kind
unfolding scan_identifier
scan_identifier-IsOther start s =
    word_kind-IsOther
      (slice s.src start.offset (advance_while (rounds s) (λ t. is_ident_char (peek t)) s).pos) _
      refl

number_token-IsOther :
    (start : Position) (r : Bool × Scanner) → IsOther (number_token start r).0.kind
unfolding kind_eq
number_token-IsOther start (true, s) = refl
number_token-IsOther start (false, s) = refl

scan_number-IsOther : (start : Position) (s : Scanner) → IsOther (scan_number start s).0.kind
unfolding scan_number kind_eq
scan_number-IsOther start s =
    if_cases P (peek s == b'0' && (peek_at s 1 == b'x' || peek_at s 1 == b'X')) _ _ (λ _. refl)
      (λ _.
        if_cases P (peek s == b'0' && (peek_at s 1 == b'b' || peek_at s 1 == b'B')) _ _ (λ _. refl)
          (λ _.
            number_token-IsOther start
              (scan_exponent (scan_fraction (scan_digits_with_separators is_digit s)))))
  where
    P : RawToken × Scanner → Type 0
    P r = IsOther r.0.kind

quoted_token-IsOther :
    (kind : Kind) (start : Position) (r : Bool × Scanner)
    → IsOther kind
    → IsOther (quoted_token kind start r).0.kind
unfolding kind_eq
quoted_token-IsOther kind start (true, s) h = h
quoted_token-IsOther kind start (false, s) h = refl

string_kind-IsOther : (start : Position) (s : Scanner) → IsOther (string_kind start s)
unfolding string_kind kind_eq
string_kind-IsOther start s = ground arith

scan_string-IsOther : (start : Position) (s : Scanner) → IsOther (scan_string start s).0.kind
unfolding scan_string
scan_string-IsOther start s =
    quoted_token-IsOther (string_kind start s) start (quoted_loop (rounds s + 1) b'"' (advance s))
      (string_kind-IsOther start s)

scan_char-IsOther : (start : Position) (s : Scanner) → IsOther (scan_char start s).0.kind
unfolding scan_char kind_eq
scan_char-IsOther start s =
    quoted_token-IsOther Kind.char_literal start (quoted_loop (rounds s + 1) b'\'' (advance s)) refl

multi_operator_kind-IsOther :
    (a b c d : ℕ) {n : ℕ} {k : Kind} → multi_operator_kind a b c d ≡ some (n, k) → IsOther k
unfolding multi_operator_kind kind_eq
multi_operator_kind-IsOther a b c d e = ground arith

single_operator_kind-IsOther : (c : ℕ) {k : Kind} → single_operator_kind c ≡ some k → IsOther k
unfolding single_operator_kind kind_eq
single_operator_kind-IsOther c e = ground arith

single_operator-IsOther :
    (start : Position) (o : Option Kind) (s : Scanner)
    → ((k : Kind) → o ≡ some k → IsOther k)
    → IsOther (single_operator start o s).0.kind
unfolding single_operator kind_eq
single_operator-IsOther start (some k) s h = h k refl
single_operator-IsOther start none s h = refl

operator-IsOther :
    (start : Position) (o : Option (ℕ × Kind)) (s : Scanner)
    → ((n : ℕ) (k : Kind) → o ≡ some (n, k) → IsOther k)
    → IsOther (operator start o s).0.kind
unfolding operator consume_op
operator-IsOther start (some (n, k)) s h = h n k refl
operator-IsOther start none s h =
    single_operator-IsOther start (single_operator_kind (peek s)) s
      (λ k e. single_operator_kind-IsOther (peek s) e)

scan_operator-IsOther : (start : Position) (s : Scanner) → IsOther (scan_operator start s).0.kind
unfolding scan_operator
scan_operator-IsOther start s =
    operator-IsOther start (multi_operator_kind (peek s) (peek_at s 1) (peek_at s 2) (peek_at s 3))
      s (λ n k e. multi_operator_kind-IsOther (peek s) (peek_at s 1) (peek_at s 2) (peek_at s 3) e)

scan_macro_param-IsOther :
    (start : Position) (s : Scanner) → IsOther (scan_macro_param start s).0.kind
unfolding scan_macro_param kind_eq
scan_macro_param-IsOther start s =
    if_cases (λ (r : RawToken × Scanner). IsOther r.0.kind) (peek (advance s) == b'%') _ _
      (λ _. refl) (λ _. refl)

plain-IsOther :
    (start : Position) (s : Scanner)
    → IsOther (scan_whitespace start s).0.kind
      × IsOther (scan_continuation start s).0.kind
      × IsOther (scan_line_comment start s).0.kind
      × IsOther (scan_block_comment start s).0.kind
unfolding kind_eq scan_whitespace scan_continuation scan_line_comment scan_block_comment
plain-IsOther start s = (refl, refl, refl, refl)

newline-IsOther : IsOther Kind.newline
unfolding kind_eq
newline-IsOther = refl

pub dispatch-IsOther : (start : Position) (s : Scanner) → IsOther (dispatch start s).0.kind
unfolding dispatch
dispatch-IsOther start s =
    if_cases P (is_blank (peek s)) _ _ (λ _. (plain-IsOther start s).0)
      (λ _.
        if_cases P (peek s == b'\n') _ _ (λ _. newline-IsOther)
          (λ _.
            if_cases P (at_continuation s) _ _ (λ _. (plain-IsOther start s).1)
              (λ _.
                if_cases P (peek s == b'/' && peek_at s 1 == b'/') _ _
                  (λ _. (plain-IsOther start s).2)
                  (λ _.
                    if_cases P (peek s == b'/' && peek_at s 1 == b'*') _ _
                      (λ _. (plain-IsOther start s).3)
                      (λ _.
                        if_cases P (is_ident_start (peek s)) _ _
                          (λ _. scan_identifier-IsOther start s)
                          (λ _.
                            if_cases P (is_digit (peek s)) _ _ (λ _. scan_number-IsOther start s)
                              (λ _.
                                if_cases P (peek s == b'.' && is_digit (peek_at s 1)) _ _
                                  (λ _. scan_number-IsOther start s)
                                  (λ _.
                                    if_cases P (peek s == b'"') _ _
                                      (λ _. scan_string-IsOther start s)
                                      (λ _.
                                        if_cases P (peek s == b'\'') _ _
                                          (λ _. scan_char-IsOther start s)
                                          (λ _.
                                            if_cases P (peek s == b'!' && peek_at s 1 == b'"') _ _
                                              (λ _. scan_string-IsOther start (advance s))
                                              (λ _.
                                                if_cases P
                                                  (peek s == b'%'
                                                    && is_macro_param_char (peek_at s 1))
                                                  _ _ (λ _. scan_macro_param-IsOther start s)
                                                  (λ _. scan_operator-IsOther start s))))))))))))
  where
    P : RawToken × Scanner → Type 0
    P r = IsOther r.0.kind

pub next_raw-IsOther : (s : Scanner) → at_end s ≡ false → IsOther (next_raw s).0.kind
unfolding next_raw
next_raw-IsOther s h = rw h (dispatch-IsOther (here s) s)

pub next_raw-end : (s : Scanner) → at_end s ≡ true → next_raw s ≡ emit Kind.eof (here s) s
unfolding next_raw
next_raw-end s h = rw h
