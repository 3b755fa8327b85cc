-- ===== src/Sink/Tree/Paths.antt =====
-- Paths of children, the stack of nodes to visit, and the edges that are left to follow.
use pawn_parser.Prelude.{
  ℕ, zero, suc, ◌+◌, ◌≤◌, ◌<◌, ◌≡◌, ◌≢◌, refl, sym, ap, ap₂, ◌∙◌, ◌⊎◌, inl, inr, List, [], ◌∷◌,
  arith, length, set,
}
use pawn_parser.Sink.Links.Cells.{get_or-set_same, get_or-set_other}
use pawn_parser.Sink.Tree.{mark, push_all, mapped, edges}

abbrev pub Among : ℕ → List ℕ → Type 0
Among c [] = ⊥
Among c (x ∷ xs) = (c ≡ x) ⊎ Among c xs

-- A node that a path of children leads to.
pub data Reaches (kids : ℕ → List ℕ) (root : ℕ) : ℕ → Type 0 where
  here : Reaches kids root root
  there : {id : ℕ} (c : ℕ) → Reaches kids root id → Among c (kids id) → Reaches kids root c

pub in_stack : (c : ℕ) (cs stack : List ℕ) → Among c stack → Among c (push_all cs stack)
unfolding push_all
in_stack c [] stack h = h
in_stack c (x ∷ cs) stack h = in_stack c cs (x ∷ stack) (inr h)

pub in_children : (c : ℕ) (cs stack : List ℕ) → Among c cs → Among c (push_all cs stack)
unfolding push_all
in_children c [] stack h = elim h [ ]
in_children c (x ∷ cs) stack (inl e) = in_stack c cs (x ∷ stack) (inl e)
in_children c (x ∷ cs) stack (inr h) = in_children c cs (x ∷ stack) h

pub in_either :
    (c : ℕ) (cs stack : List ℕ) → Among c (push_all cs stack) → Among c cs ⊎ Among c stack
unfolding push_all
in_either c [] stack h = inr h
in_either c (x ∷ cs) stack h = elim (in_either c cs (x ∷ stack) h) [
  | inl a ↦ inl (inr a)
  | inr (inl e) ↦ inl (inl e)
  | inr (inr a) ↦ inr a
]

pub length-push_all : (cs stack : List ℕ) → length (push_all cs stack) ≡ length cs + length stack
unfolding push_all
length-push_all [] stack = omega arith
length-push_all (x ∷ cs) stack = omega (arith, length-push_all cs (x ∷ stack))

pub same_or_not : (a b : ℕ) → (a ≡ b) ⊎ (a ≢ b)
same_or_not a b = ground arith

module _ (kids : ℕ → List ℕ) where
  -- What a node has still to give to the stack.
  cost : ℕ → ℕ → ℕ
  cost zero k = length (kids k)
  cost (suc m) k = 0

  cost_marked : (v k : ℕ) → v ≢ 0 → cost v k ≡ 0
  unfolding cost
  cost_marked zero k h = absurd (h refl)
  cost_marked (suc m) k h = refl

  -- The edges of the nodes that are not marked.
  pub unseen : List ℕ → ℕ → ℕ
  unseen remap zero = 0
  unseen remap (suc n) = unseen remap n + cost (mapped remap n) n

  cost_le : (v k : ℕ) → cost v k ≤ length (kids k)
  unfolding cost
  cost_le zero k = omega arith
  cost_le (suc m) k = omega arith

  pub unseen_le : (remap : List ℕ) (n : ℕ) → unseen remap n ≤ edges kids n
  unfolding unseen edges
  unseen_le remap zero = omega arith
  unseen_le remap (suc n) = omega (arith, unseen_le remap n, cost_le (mapped remap n) n)

  -- A mark beyond `n` is not seen.
  unseen_beyond :
      (remap : List ℕ) (n id : ℕ) → n ≤ id → unseen (set remap id mark) n ≡ unseen remap n
  unfolding unseen
  unseen_beyond remap zero id h = refl
  unseen_beyond remap (suc n) id h =
      ap₂ (λ x y. x + cost y n) (unseen_beyond remap n id (omega arith))
        (get_or-set_other remap id n mark 0 (λ e. absurd (omega arith)))

  pub unseen_marked :
      (remap : List ℕ) (n id : ℕ)
      → id < n
      → id < length remap
      → mapped remap id ≡ 0
      → unseen (set remap id mark) n + length (kids id) ≡ unseen remap n
  unfolding unseen cost
  unseen_marked remap zero id h l e = absurd (omega arith)
  unseen_marked remap (suc n) id h l e = elim (same_or_not id n) [
    | inl q ↦
        let a = unseen_beyond remap n id (omega arith) in
        let b : cost (mapped (set remap id mark) n) n ≡ 0 = cost_marked _ n (λ z. absurd (
          marked
            (sym (get_or-set_same remap id mark 0 l) ∙ ap (mapped (set remap id mark)) q ∙ z))) in
        let c : cost (mapped remap n) n ≡ length (kids id) =
          ap (λ v. cost v n) (ap (mapped remap) (sym q) ∙ e) ∙ ap (λ k. length (kids k)) (sym q) in
        omega (arith, a, b, c)
    | inr q ↦
        let a = unseen_marked remap n id (omega arith) l e in
        let b : cost (mapped (set remap id mark) n) n ≡ cost (mapped remap n) n =
          ap (λ v. cost v n) (get_or-set_other remap id n mark 0 q) in
        omega (arith, a, b)
  ]
    where
      marked : mark ≢ 0
      marked z = omega arith
