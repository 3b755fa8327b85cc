-- ===== src/Lexer/Operators/Maximal.antt =====
-- `scanOperator` takes the longest operator that the next bytes spell.
use pawn_parser.Prelude.{
  ◌≢◌, ℕ, ◌≤◌, ◌≡◌, inl, inr, true, [], ◌∷◌, Bytes, Option, none, some, leb, leb→le, arith, length,
  Bool-cases,
}
use pawn_parser.Token.Kind.{Kind, ordinal}
use pawn_parser.Token.Keyword.{kind_name}
use pawn_parser.Lexer.Scanner.{RawToken, Scanner, peek, peek_at, advance, advance_by}
use pawn_parser.Lexer.Operators.{multi_operator_kind, single_operator_kind}
use pawn_parser.Lexer.Operators.Longest.{is_operator, is_prefix, reach, AllNames, multi_names}
use pawn_parser.Lexer.Operators.Reach.{long_reach}

-- The next four bytes.
abbrev pub lookahead : Scanner → Bytes
lookahead s = peek s ∷ peek_at s 1 ∷ peek_at s 2 ∷ peek_at s 3 ∷ []

-- The operator `r` is spelled by the next bytes, as many as were taken, and no longer one is.
pub record Maximal (s : Scanner) (r : RawToken × Scanner) : Type 0 where
  pub operator_kind : is_operator r.0.kind ≡ true
  pub spelled : is_prefix (kind_name r.0.kind) (lookahead s) ≡ true
  pub taken : r.1 ≡ advance_by (length (kind_name r.0.kind)) s
  pub longest :
      (j : Kind)
      → is_operator j ≡ true
      → is_prefix (kind_name j) (lookahead s) ≡ true
      → length (kind_name j) ≤ length (kind_name r.0.kind)

-- No operator begins here, and one byte of unknown kind was taken.
pub record Missing (s : Scanner) (r : RawToken × Scanner) : Type 0 where
  pub unknown_kind : r.0.kind ≡ Kind.unknown
  pub one_byte : r.1 ≡ advance s
  pub none_begins :
      (j : Kind) → is_operator j ≡ true → is_prefix (kind_name j) (lookahead s) ≡ true → ⊥

kind_name_pos : (k : Kind) → 1 ≤ length (kind_name k)
unfolding kind_name
kind_name_pos Kind.eof = omega arith
kind_name_pos _ = omega arith

-- A single operator is spelled by its one byte.
abbrev pub SingleNames : ℕ → Option Kind → Type 0
SingleNames a none = Unit
SingleNames a (some k) = (is_operator k ≡ true) × (kind_name k ≡ a ∷ [])

pub single_names : (a : ℕ) → SingleNames a (single_operator_kind a)
unfolding single_operator_kind kind_name ordinal
single_names a = ground arith

reach_pos : (a b c d : ℕ) (o : Option (ℕ × Kind)) → AllNames a b c d o → 1 ≤ reach o
reach_pos a b c d none h = omega arith
reach_pos a b c d (some (n, k)) h = omega (arith, h.taken, kind_name_pos k)

pub longest_reach :
    (a b c d : ℕ) (j : Kind)
    → is_operator j ≡ true
    → is_prefix (kind_name j) (a ∷ b ∷ c ∷ d ∷ []) ≡ true
    → length (kind_name j) ≤ reach (multi_operator_kind a b c d)
longest_reach a b c d j h p = elim (Bool-cases (leb (length (kind_name j)) 1)) [
  | inl e ↦ omega (
    arith,
    leb→le (length (kind_name j)) 1 e,
    reach_pos a b c d (multi_operator_kind a b c d) (multi_names a b c d),
  )
  | inr e ↦ long_reach a b c d j h e p
]

-- An operator of one byte is known.
pub single_found :
    (a b c d : ℕ) (j : Kind)
    → is_operator j ≡ true
    → leb (length (kind_name j)) 1 ≡ true
    → is_prefix (kind_name j) (a ∷ b ∷ c ∷ d ∷ []) ≡ true
    → single_operator_kind a ≢ none
unfolding single_operator_kind kind_name ordinal
single_found a b c d Kind.eof h l p = cc
single_found a b c d _ h l p = ground arith
