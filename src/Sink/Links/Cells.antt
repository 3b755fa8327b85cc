-- ===== src/Sink/Links/Cells.antt =====
-- Reading a list in which one place has been written, or to which one element has been added.
use pawn_parser.Prelude.{
  ℕ, zero, suc, ◌<◌, ◌≡◌, ◌≢◌, refl, ap, List, [], ◌∷◌, ◌++◌, arith, length, get_or, set,
}

pub get_or-set_same {ℓ} :
    {A : Type ℓ} (xs : List A) (i : ℕ) (v d : A) → i < length xs → get_or (set xs i v) i d ≡ v
get_or-set_same [] i v d h = absurd (omega arith)
get_or-set_same (x ∷ xs) zero v d h = refl
get_or-set_same (x ∷ xs) (suc i) v d h = get_or-set_same xs i v d (omega arith)

pub get_or-set_other {ℓ} :
    {A : Type ℓ} (xs : List A) (i j : ℕ) (v d : A) → i ≢ j → get_or (set xs i v) j d ≡ get_or xs j d
get_or-set_other [] i j v d h = refl
get_or-set_other (x ∷ xs) zero zero v d h = absurd (h refl)
get_or-set_other (x ∷ xs) zero (suc j) v d h = refl
get_or-set_other (x ∷ xs) (suc i) zero v d h = refl
get_or-set_other (x ∷ xs) (suc i) (suc j) v d h = get_or-set_other xs i j v d (λ e. h (ap suc e))

pub get_or-snoc_last {ℓ} :
    {A : Type ℓ} (xs : List A) (v d : A) → get_or (xs ++ (v ∷ [])) (length xs) d ≡ v
get_or-snoc_last [] v d = refl
get_or-snoc_last (x ∷ xs) v d = get_or-snoc_last xs v d

pub get_or-snoc_other {ℓ} :
    {A : Type ℓ} (xs : List A) (i : ℕ) (v d : A)
    → i ≢ length xs
    → get_or (xs ++ (v ∷ [])) i d ≡ get_or xs i d
get_or-snoc_other [] zero v d h = absurd (h refl)
get_or-snoc_other [] (suc i) v d h = refl
get_or-snoc_other (x ∷ xs) zero v d h = refl
get_or-snoc_other (x ∷ xs) (suc i) v d h = get_or-snoc_other xs i v d (λ e. h (ap suc e))
