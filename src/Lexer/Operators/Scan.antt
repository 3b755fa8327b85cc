-- ===== src/Lexer/Operators/Scan.antt =====
-- `scanOperator` takes the longest operator that the next bytes spell, or one unknown byte.
use pawn_parser.Prelude.{
  ◌≢◌, ℕ, ◌≤◌, ◌≡◌, refl, sym, ap, ◌⊎◌, inl, inr, true, Option, none, some, arith, length, subst,
}
use pawn_parser.Token.Kind.{Kind}
use pawn_parser.Token.Keyword.{kind_name}
use pawn_parser.Token.Types.{Position}
use pawn_parser.Lexer.Scanner.{Scanner, peek, peek_at, advance_by}
use pawn_parser.Lexer.Operators.{
  multi_operator_kind, single_operator_kind, single_operator, operator, consume_op, scan_operator,
}
use pawn_parser.Lexer.Operators.Longest.{is_operator, is_prefix, reach, AllNames, multi_names}
use pawn_parser.Lexer.Operators.Maximal.{
  lookahead, Maximal, Missing, SingleNames, single_names, single_found, longest_reach,
}

-- What is known of the two tables at the next four bytes.
module _ (start : Position) (s : Scanner) where
  multi_case :
      (o : Option (ℕ × Kind))
      → AllNames (peek s) (peek_at s 1) (peek_at s 2) (peek_at s 3) o
      → ((j : Kind)
          → is_operator j ≡ true
          → is_prefix (kind_name j) (lookahead s) ≡ true
          → length (kind_name j) ≤ reach o)
      → (o ≡ none → Maximal s (operator start none s) ⊎ Missing s (operator start none s))
      → Maximal s (operator start o s) ⊎ Missing s (operator start o s)
  unfolding operator consume_op
  multi_case none n l k = k refl
  multi_case (some (n, kind)) m l k = inl (record {
    operator_kind = m.operator_kind;
    spelled = m.spelled;
    taken = ap (λ i. advance_by i s) (sym m.taken);
    longest = λ j h p. omega (arith, l j h p, m.taken);
  })

  single_case :
      (o : Option Kind)
      → SingleNames (peek s) o
      → ((j : Kind)
          → is_operator j ≡ true
          → is_prefix (kind_name j) (lookahead s) ≡ true
          → (length (kind_name j) ≤ 1) × (o ≢ none))
      → Maximal s (single_operator start o s) ⊎ Missing s (single_operator start o s)
  unfolding single_operator advance_by
  single_case none n l =
      inr (record { unknown_kind = refl; one_byte = refl; none_begins = λ j h p. (l j h p).1 refl })
  single_case (some kind) (op, name) l = inl (record {
    operator_kind = op;
    spelled = rw name (ground arith);
    taken = rw name refl;
    longest = λ j h p. rw name (l j h p).0;
  })

  -- `scanOperator` either takes an operator which the next bytes spell, exactly its bytes, such that
  -- no other operator which they spell is longer; or no operator begins there, and it takes one
  -- byte as a token of unknown kind.
  pub scan_operator-Maximal : Maximal s (scan_operator start s) ⊎ Missing s (scan_operator start s)
  unfolding scan_operator operator
  scan_operator-Maximal =
      multi_case table (multi_names (peek s) (peek_at s 1) (peek_at s 2) (peek_at s 3)) reached
        (λ e. single_case (single_operator_kind (peek s)) (single_names (peek s)) (λ j h p.
          let short : length (kind_name j) ≤ 1 =
            subst (λ o. length (kind_name j) ≤ reach o) e (reached j h p) in
          (
            short,
            single_found (peek s) (peek_at s 1) (peek_at s 2) (peek_at s 3) j h (ground arith) p,
          )))
    where
      table : Option (ℕ × Kind)
      table = multi_operator_kind (peek s) (peek_at s 1) (peek_at s 2) (peek_at s 3)

      reached :
          (j : Kind)
          → is_operator j ≡ true
          → is_prefix (kind_name j) (lookahead s) ≡ true
          → length (kind_name j) ≤ reach table
      reached = longest_reach (peek s) (peek_at s 1) (peek_at s 2) (peek_at s 3)
