-- ===== src/Lexer/Operators/Longest.antt =====
-- The operators that the lexer finds are spelled as `kindNames` says, and are the longest there are.
use pawn_parser.Prelude.{
  ◌||◌, if_cases, ℕ, ◌≡◌, Bool, true, false, ◌&&◌, [], ◌∷◌, Bytes, Option, none, some, ◌==◌, leb,
  arith, length,
}
use pawn_parser.Token.Kind.{Kind, ordinal}
use pawn_parser.Token.Keyword.{kind_name}
use pawn_parser.Lexer.Operators.{
  shift_or_relational_operator, dot_operator, increment_or_assignment_operator, assignment_operator,
  logical_or_assignment_operator, paired_operator, multi_operator_kind,
}

-- The kinds from `Plus` to `At`.
abbrev pub is_operator : Kind → Bool
is_operator k = leb (ordinal Kind.plus) (ordinal k) && leb (ordinal k) (ordinal Kind.at)

abbrev pub is_prefix : Bytes → Bytes → Bool
is_prefix [] ys = true
is_prefix (x ∷ xs) [] = false
is_prefix (x ∷ xs) (y ∷ ys) = x == y && is_prefix xs ys

-- The number of bytes that are taken at least.
abbrev pub reach : Option (ℕ × Kind) → ℕ
reach none = 1
reach (some (n, k)) = n

-- What is said of a kind and the number of bytes that it takes.
pub record Names (a b c d n : ℕ) (k : Kind) : Type 0 where
  pub operator_kind : is_operator k ≡ true
  pub taken : length (kind_name k) ≡ n
  pub spelled : is_prefix (kind_name k) (a ∷ b ∷ c ∷ d ∷ []) ≡ true

abbrev pub AllNames : ℕ → ℕ → ℕ → ℕ → Option (ℕ × Kind) → Type 0
AllNames a b c d none = Unit
AllNames a b c d (some (n, k)) = Names a b c d n k

shift_names :
    (a b c d : ℕ)
    → (a == b'>' || a == b'<') ≡ true
    → AllNames a b c d (shift_or_relational_operator a b c d)
unfolding shift_or_relational_operator kind_name ordinal
shift_names a b c d h = ground arith

dot_names : (a b c d : ℕ) → (a == b'.') ≡ true → AllNames a b c d (dot_operator b c)
unfolding dot_operator kind_name ordinal
dot_names a b c d h = ground arith

assignment_names : (a b c d : ℕ) → AllNames a b c d (assignment_operator a b)
unfolding assignment_operator kind_name ordinal
assignment_names a b c d = ground arith

increment_names : (a b c d : ℕ) → AllNames a b c d (increment_or_assignment_operator a b)
unfolding increment_or_assignment_operator kind_name ordinal
increment_names a b c d = ground arith

logical_names : (a b c d : ℕ) → AllNames a b c d (logical_or_assignment_operator a b)
unfolding logical_or_assignment_operator kind_name ordinal
logical_names a b c d = ground arith

paired_names : (a b c d : ℕ) → AllNames a b c d (paired_operator a b)
unfolding paired_operator kind_name ordinal
paired_names a b c d = ground arith

pub multi_names : (a b c d : ℕ) → AllNames a b c d (multi_operator_kind a b c d)
unfolding multi_operator_kind
multi_names a b c d = if_cases P (a == b'>' || a == b'<') _ _ (shift_names a b c d) (λ _.
    if_cases P (a == b'.') _ _ (dot_names a b c d) (λ _.
      if_cases P (a == b'+' || a == b'-') _ _ (λ _. increment_names a b c d)
        (λ _.
          if_cases P (a == b'*' || a == b'/' || a == b'%' || a == b'^') _ _
            (λ _. assignment_names a b c d)
            (λ _.
              if_cases P (a == b'&' || a == b'|') _ _ (λ _. logical_names a b c d)
                (λ _.
                  if_cases P (a == b'=' || a == b'!' || a == b':') _ _ (λ _. paired_names a b c d)
                    (λ _. tt))))))
  where
    P : Option (ℕ × Kind) → Type 0
    P = AllNames a b c d
