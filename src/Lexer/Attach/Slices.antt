-- ===== src/Lexer/Attach/Slices.antt =====
-- A slice of the trivia that lies between two parts is that part.
use pawn_parser.Prelude.{
  ℕ, zero, ◌≤◌, true, ◌&&◌, leb, Option, some, length-append, ◌+◌, ◌-◌, ◌≡◌, refl, ap, ◌∙◌, List,
  [], ◌∷◌, ◌++◌, arith, length, slice, take, drop, take-append_exact, if_cases, ◌==◌,
}
use pawn_parser.Token.Types.{Trivia}
use pawn_parser.Lexer.Attach.{trivia_slice}

drop-append {ℓ} : {A : Type ℓ} (xs ys : List A) → drop (length xs) (xs ++ ys) ≡ ys
drop-append [] ys = refl
drop-append (x ∷ xs) ys = drop-append xs ys

pub slice_between {ℓ} :
    {A : Type ℓ} (xs ys zs : List A) (i j : ℕ)
    → i ≡ length xs
    → j ≡ length xs + length ys
    → slice (xs ++ (ys ++ zs)) i j ≡ ys
slice_between xs ys zs i j e f =
    ap (λ n. take n (drop i (xs ++ (ys ++ zs)))) (let g : j - i ≡ length ys = omega arith in g)
    ∙ ap (λ n. take (length ys) (drop n (xs ++ (ys ++ zs)))) e
    ∙ ap (take (length ys)) (drop-append xs (ys ++ zs))
    ∙ take-append_exact ys zs

pub trivia_slice-slice :
    (ts : List Trivia) (i j : ℕ) → i ≤ j → j ≤ length ts → trivia_slice ts i j ≡ some (slice ts i j)
unfolding trivia_slice
trivia_slice-slice ts i j h k =
    let inside : (leb i j && leb j (length ts)) ≡ true = ground arith in
    rw inside (
      if_cases (λ (xs : Option (List Trivia)). xs ≡ some (slice ts i j)) (i == j) _ _
        (λ e. ap (λ n. some (take n (drop i ts))) (let g : zero ≡ j - i = ground arith in g))
        (λ _. refl))

-- The slice of a part.
pub trivia_slice_between :
    (all xs ys zs : List Trivia) {i j : ℕ}
    → all ≡ xs ++ (ys ++ zs)
    → i ≡ length xs
    → j ≡ length xs + length ys
    → trivia_slice all i j ≡ some ys
trivia_slice_between all xs ys zs {i} {j} s e f =
    trivia_slice-slice all i j (omega (arith, e, f))
      (omega (arith, f, ap length s, length-append xs (ys ++ zs), length-append ys zs))
    ∙ ap (λ t. some (slice t i j)) s
    ∙ ap some (slice_between xs ys zs i j e f)
