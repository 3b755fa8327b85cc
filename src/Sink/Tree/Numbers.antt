-- ===== src/Sink/Tree/Numbers.antt =====
-- The numbers of the nodes that are reached.
use pawn_parser.Prelude.{
  ◌⊎◌, inl, inr, ℕ, zero, suc, ◌+◌, ◌≤◌, ◌<◌, ◌≡◌, refl, sym, ap, ◌∙◌, false, List, [], ◌∷◌, arith,
  ◌==◌, length, get_or,
}
use pawn_parser.Sink.Tree.{number_from, node_count}

-- The entries count up from `c`, with any number of zeros between.
abbrev pub Numbered : ℕ → List ℕ → Type 0
Numbered c [] = Unit
Numbered c (zero ∷ rs) = Numbered c rs
Numbered c (suc r ∷ rs) = (r ≡ c) × Numbered (suc c) rs

pub number_from-Numbered : (c : ℕ) (rs : List ℕ) → Numbered c (number_from c rs)
unfolding number_from
number_from-Numbered c [] = tt
number_from-Numbered c (zero ∷ rs) = number_from-Numbered c rs
number_from-Numbered c (suc r ∷ rs) = (refl, number_from-Numbered (suc c) rs)

pub length-number_from : (c : ℕ) (rs : List ℕ) → length (number_from c rs) ≡ length rs
unfolding number_from
length-number_from c [] = refl
length-number_from c (zero ∷ rs) = omega (arith, length-number_from c rs)
length-number_from c (suc r ∷ rs) = omega (arith, length-number_from (suc c) rs)

-- Numbers stand where marks stood.
pub number_from-same :
    (c : ℕ) (rs : List ℕ) (i : ℕ) → (get_or (number_from c rs) i 0 == 0) ≡ (get_or rs i 0 == 0)
unfolding number_from
number_from-same c [] i = refl
number_from-same c (zero ∷ rs) zero = refl
number_from-same c (zero ∷ rs) (suc i) = number_from-same c rs i
number_from-same c (suc r ∷ rs) zero =
    let a : (suc c == 0) ≡ false = ground arith in
    let b : (suc r == 0) ≡ false = ground arith in a ∙ sym b
number_from-same c (suc r ∷ rs) (suc i) = number_from-same (suc c) rs i

-- Numbers lie between `c` and the count of all, and grow.
pub Numbered-within :
    (c : ℕ) (rs : List ℕ) (i m : ℕ)
    → Numbered c rs
    → get_or rs i 0 ≡ suc m
    → (c ≤ m) × (m < c + node_count rs) × (m ≤ c + i)
unfolding node_count
Numbered-within c [] i m h e = absurd (omega (arith, e))
Numbered-within c (zero ∷ rs) zero m h e = absurd (omega (arith, e))
Numbered-within c (zero ∷ rs) (suc i) m h e =
    let (a, b, d) = Numbered-within c rs i m h e in (a, b, omega arith)
Numbered-within c (suc r ∷ rs) zero m (q, h) e = (omega arith, omega arith, omega arith)
Numbered-within c (suc r ∷ rs) (suc i) m (q, h) e =
    let (a, b, d) = Numbered-within (suc c) rs i m h e in (omega arith, omega arith, omega arith)

pub Numbered-distinct :
    (c : ℕ) (rs : List ℕ) (i j m : ℕ)
    → Numbered c rs
    → get_or rs i 0 ≡ suc m
    → get_or rs j 0 ≡ suc m
    → i ≡ j
Numbered-distinct c [] i j m h e f = absurd (omega (arith, e))
Numbered-distinct c (zero ∷ rs) zero j m h e f = absurd (omega (arith, e))
Numbered-distinct c (zero ∷ rs) (suc i) zero m h e f = absurd (omega (arith, f))
Numbered-distinct c (zero ∷ rs) (suc i) (suc j) m h e f =
    ap suc (Numbered-distinct c rs i j m h e f)
Numbered-distinct c (suc r ∷ rs) zero zero m (q, h) e f = refl
Numbered-distinct c (suc r ∷ rs) zero (suc j) m (q, h) e f =
    let (a, _, _) = Numbered-within (suc c) rs j m h f in absurd (omega arith)
Numbered-distinct c (suc r ∷ rs) (suc i) zero m (q, h) e f =
    let (a, _, _) = Numbered-within (suc c) rs i m h e in absurd (omega arith)
Numbered-distinct c (suc r ∷ rs) (suc i) (suc j) m (q, h) e f =
    ap suc (Numbered-distinct (suc c) rs i j m h e f)

-- Each number from `c` up to the count of all stands somewhere.
pub Numbered-all :
    (c : ℕ) (rs : List ℕ) (m : ℕ)
    → Numbered c rs
    → c ≤ m
    → m < c + node_count rs
    → (i : ℕ) × (get_or rs i 0 ≡ suc m)
unfolding node_count
Numbered-all c [] m h a b = absurd (omega arith)
Numbered-all c (zero ∷ rs) m h a b = let (i, e) = Numbered-all c rs m h a b in (suc i, e)
Numbered-all c (suc r ∷ rs) m (q, h) a b = elim (first_or_later c m a) [
  | inl e ↦ (zero, ap suc (q ∙ e))
  | inr l ↦ let (i, e) = Numbered-all (suc c) rs m h l (omega arith) in (suc i, e)
]
  where
    first_or_later : (c m : ℕ) → c ≤ m → (c ≡ m) ⊎ (suc c ≤ m)
    first_or_later c m h = ground arith
