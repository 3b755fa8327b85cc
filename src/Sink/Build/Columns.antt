-- ===== src/Sink/Build/Columns.antt =====
-- The start of a list when places behind it are written or added.
use pawn_parser.Prelude.{
  ℕ, zero, suc, ◌≤◌, ◌≡◌, refl, ap, ◌⊎◌, inl, inr, List, [], ◌∷◌, ◌++◌, arith, length, get_or, set,
  take,
}

pub take-set_behind {ℓ} :
    {A : Type ℓ} (k : ℕ) (xs : List A) (i : ℕ) (v : A) → k ≤ i → take k (set xs i v) ≡ take k xs
take-set_behind zero xs i v h = refl
take-set_behind (suc k) [] i v h = refl
take-set_behind (suc k) (x ∷ xs) zero v h = absurd (omega arith)
take-set_behind (suc k) (x ∷ xs) (suc i) v h = ap (◌∷◌ x) (take-set_behind k xs i v (omega arith))

pub take-append_behind {ℓ} :
    {A : Type ℓ} (k : ℕ) (xs ys : List A) → k ≤ length xs → take k (xs ++ ys) ≡ take k xs
take-append_behind zero xs ys h = refl
take-append_behind (suc k) [] ys h = absurd (omega arith)
take-append_behind (suc k) (x ∷ xs) ys h = ap (◌∷◌ x) (take-append_behind k xs ys (omega arith))

-- A default that is added is not seen.
pub get_or-snoc_default {ℓ} :
    {A : Type ℓ} (xs : List A) (i : ℕ) (d : A) → get_or (xs ++ (d ∷ [])) i d ≡ get_or xs i d
get_or-snoc_default [] zero d = refl
get_or-snoc_default [] (suc i) d = refl
get_or-snoc_default (x ∷ xs) zero d = refl
get_or-snoc_default (x ∷ xs) (suc i) d = get_or-snoc_default xs i d

-- What is read was written there, or was there before.
pub get_or-set_either {ℓ} :
    {A : Type ℓ} (xs : List A) (i j : ℕ) (v d : A)
    → (get_or (set xs i v) j d ≡ v) ⊎ (get_or (set xs i v) j d ≡ get_or xs j d)
get_or-set_either [] i j v d = inr refl
get_or-set_either (x ∷ xs) zero zero v d = inl refl
get_or-set_either (x ∷ xs) zero (suc j) v d = inr refl
get_or-set_either (x ∷ xs) (suc i) zero v d = inr refl
get_or-set_either (x ∷ xs) (suc i) (suc j) v d = get_or-set_either xs i j v d
