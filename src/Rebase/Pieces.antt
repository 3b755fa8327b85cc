-- ===== src/Rebase/Pieces.antt =====
-- Slices of a text that is put together of two.
use pawn_parser.Prelude.{
  ℕ, zero, suc, ◌+◌, ◌-◌, ◌≤◌, ◌≡◌, refl, ap, ap₂, ◌∙◌, List, [], ◌∷◌, ◌++◌, arith, length, slice,
  take, drop, length-drop,
}

take-append_left {ℓ} :
    {A : Type ℓ} (n : ℕ) (xs ys : List A) → n ≤ length xs → take n (xs ++ ys) ≡ take n xs
take-append_left zero xs ys h = refl
take-append_left (suc n) [] ys h = absurd (omega arith)
take-append_left (suc n) (x ∷ xs) ys h = ap (◌∷◌ x) (take-append_left n xs ys (omega arith))

take-append_right {ℓ} :
    {A : Type ℓ} (n : ℕ) (xs ys : List A)
    → length xs ≤ n
    → take n (xs ++ ys) ≡ xs ++ take (n - length xs) ys
take-append_right n [] ys h = ap (λ k. take k ys) (omega arith)
take-append_right zero (x ∷ xs) ys h = absurd (omega arith)
take-append_right (suc n) (x ∷ xs) ys h = ap (◌∷◌ x) (
    take-append_right n xs ys (omega arith)
    ∙ ap (λ k. xs ++ take k ys)
        (let e : n - length xs ≡ suc n - suc (length xs) = omega arith in e))

drop-append_left {ℓ} :
    {A : Type ℓ} (n : ℕ) (xs ys : List A) → n ≤ length xs → drop n (xs ++ ys) ≡ drop n xs ++ ys
drop-append_left zero xs ys h = refl
drop-append_left (suc n) [] ys h = absurd (omega arith)
drop-append_left (suc n) (x ∷ xs) ys h = drop-append_left n xs ys (omega arith)

drop-append_right {ℓ} :
    {A : Type ℓ} (n : ℕ) (xs ys : List A)
    → length xs ≤ n
    → drop n (xs ++ ys) ≡ drop (n - length xs) ys
drop-append_right n [] ys h = ap (λ k. drop k ys) (omega arith)
drop-append_right zero (x ∷ xs) ys h = absurd (omega arith)
drop-append_right (suc n) (x ∷ xs) ys h =
    drop-append_right n xs ys (omega arith)
    ∙ ap (λ k. drop k ys) (let e : n - length xs ≡ suc n - suc (length xs) = omega arith in e)

pub slice-append_left {ℓ} :
    {A : Type ℓ} (xs ys : List A) (i j : ℕ)
    → i ≤ j
    → j ≤ length xs
    → slice (xs ++ ys) i j ≡ slice xs i j
slice-append_left xs ys i j h l =
    ap (take (j - i)) (drop-append_left i xs ys (omega arith))
    ∙ take-append_left (j - i) (drop i xs) ys (omega (arith, length-drop i xs))

pub slice-append_right {ℓ} :
    {A : Type ℓ} (xs ys : List A) (i j : ℕ)
    → length xs ≤ i
    → i ≤ j
    → slice (xs ++ ys) i j ≡ slice ys (i - length xs) (j - length xs)
slice-append_right xs ys i j h l =
    ap₂ (λ k zs. take k zs) (omega arith) (drop-append_right i xs ys h)

-- A slice that begins in the first text and holds the second.
pub slice-append_around {ℓ} :
    {A : Type ℓ} (xs ys zs : List A) (i j : ℕ)
    → i ≤ length xs
    → length xs + length ys ≤ j
    → slice (xs ++ (ys ++ zs)) i j ≡ drop i xs ++ (ys ++ take (j - (length xs + length ys)) zs)
slice-append_around xs ys zs i j h l =
    ap (take (j - i)) (drop-append_left i xs (ys ++ zs) h)
    ∙ take-append_right (j - i) (drop i xs) (ys ++ zs) (omega (arith, length-drop i xs))
    ∙ ap (λ ws. drop i xs ++ ws)
        (take-append_right (j - i - length (drop i xs)) ys zs (omega (arith, length-drop i xs))
          ∙ ap (λ k. ys ++ take k zs)
              (let e : j - i - length (drop i xs) - length ys ≡ j - (length xs + length ys) =
                  omega (arith, length-drop i xs) in
                e))
