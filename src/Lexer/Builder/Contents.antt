-- ===== src/Lexer/Builder/Contents.antt =====
-- A builder holds the elements that were appended, in their order, whatever the pools answer.
use native.Mathlib.Numerals.{add-one}
use pawn_parser.Prelude.{
  refl, subst, ◌⊎◌, ℕ, ◌+◌, ◌≤◌, ◌<◌, ◌≡◌, sym, ap, ◌∙◌, ◌||◌, List, [], ◌∷◌, ◌++◌, Option, none,
  some, arith, leb, leb→le, ◌==◌, if_cases, length, take, set, length-take, length-replicate,
  length-set, take-append_exact, take-set, length-append, take-length, append_assoc, append-nil,
  inl, inr,
}
use pawn_parser.Lexer.Builder.{
  Builder, Pools, empty_builder, in_order, fit, used, reuse, acquire_block, put, append, finish,
  next_builder_block_size, builder_block_level,
}

abbrev pub contents {ℓ} : {A : Type ℓ} → Builder A → List A
contents b = used b.blocks b.next

-- No block is empty, the newest is filled up to `next`, and `count` counts what they hold.
abbrev IsFilled {ℓ} : {A : Type ℓ} → List (List A) → ℕ → ℕ → Type 0
IsFilled [] next count = (next ≡ 0) × (count ≡ 0)
IsFilled (block ∷ older) next count =
    (0 < length block) × (next ≤ length block) × (count ≡ length (in_order older) + next)

abbrev pub IsBuilder {ℓ} : {A : Type ℓ} → Builder A → Type 0
IsBuilder b = IsFilled b.blocks b.next b.count

counts {ℓ} :
    {A : Type ℓ} (blocks : List (List A)) (next count : ℕ)
    → IsFilled blocks next count
    → count ≡ length (used blocks next)
counts [] next count w = w.1
counts (block ∷ older) next count (_, within, counted) =
    omega (arith, length-append (in_order older) (take next block), length-take next block within)

pub count-contents {ℓ} : {A : Type ℓ} (b : Builder A) → IsBuilder b → b.count ≡ length (contents b)
count-contents b w = counts b.blocks b.next b.count w

next_builder_block_size_pos :
    (n last : ℕ) → (n ≡ 0) ⊎ (0 < last) → 0 < next_builder_block_size n last
unfolding next_builder_block_size
next_builder_block_size_pos n last (inl e) = ground arith
next_builder_block_size_pos n last (inr h) =
    if_cases (λ (k : ℕ). 0 < k) (n == 0) _ _ (λ _. omega arith) (λ _. omega arith)

module _ {ℓ} {A : Type ℓ} (pools : Pools A) (blank : A) where
  length-reuse : (o : Option (List A)) (size : ℕ) → length (reuse pools blank o size) ≡ size
  unfolding reuse
  length-reuse none size = length-replicate size blank
  length-reuse (some block) size =
      if_cases (λ (xs : List A). length xs ≡ size) (leb size (length block)) _ _
        (λ e. length-take size block (leb→le size (length block) e))
        (λ _. length-replicate size blank)

  length-acquire_block : (n size : ℕ) → length (acquire_block pools blank n size) ≡ size
  unfolding acquire_block
  length-acquire_block n size = length-reuse (pools n (builder_block_level size)) size

  -- What an append does.
  pub record Appends (v : A) (before : List A) (b : Builder A) : Type ℓ where
    pub filled : IsBuilder b
    pub holds : contents b ≡ before ++ (v ∷ [])

  put-Appends :
      (block : List A) (older : List (List A)) (next count : ℕ) (v : A)
      → next < length block
      → count ≡ length (in_order older) + next
      → Appends v (in_order older ++ take next block) (put pools blank (block ∷ older) next count v)
  unfolding put
  put-Appends block older next count v h c = record {
    filled = (
      omega (arith, length-set block next v),
      omega (arith, length-set block next v),
      omega arith,
    );
    holds =
        ap (λ n. in_order older ++ take n (set block next v)) (add-one next)
        ∙ ap (λ xs. in_order older ++ xs) (take-set block next v h)
        ∙ sym (append_assoc (in_order older) (take next block) (v ∷ []));
  }

  -- A write into a new block, when the blocks so far are full.
  put_new-Appends :
      (blocks : List (List A)) (count size : ℕ) (v : A)
      → 0 < size
      → count ≡ length (in_order blocks)
      → Appends v
          (in_order blocks)
          (put pools blank (acquire_block pools blank (length blocks) size ∷ blocks) 0 count v)
  put_new-Appends blocks count size v h c =
      subst (λ xs. Appends v xs (put pools blank (new ∷ blocks) 0 count v))
        (append-nil (in_order blocks))
        (put-Appends new blocks 0 count v (omega (arith, length-acquire_block (length blocks) size))
          (omega arith))
    where
      new : List A
      new = acquire_block pools blank (length blocks) size

  -- A builder whose newest block is full holds its blocks' elements.
  contents_full :
      (block : List A) (older : List (List A)) (next : ℕ)
      → next ≡ length block
      → in_order older ++ take next block ≡ in_order (block ∷ older)
  contents_full block older next e =
      ap (λ xs. in_order older ++ xs) (take-length next block (omega arith))

  pub append-Appends :
      (b : Builder A) (v : A) → IsBuilder b → Appends v (contents b) (append pools blank b v)
  unfolding append
  append-Appends b v w = go b.blocks b.next b.count w
    where
      size : List A → List (List A) → ℕ
      size block older = next_builder_block_size (length (block ∷ older)) (length block)

      go :
          (blocks : List (List A)) (next count : ℕ)
          → IsFilled blocks next count
          → Appends v
              (used blocks next)
              (append pools blank (record { blocks = blocks; next = next; count = count }) v)
      go [] next count w = put_new-Appends [] count 256 v (omega arith) (omega arith)
      go (block ∷ older) next count (some_room, within, counted) =
          if_cases (Appends v (in_order older ++ take next block))
            (length (block ∷ older) == 0 || next == length block) _ _
            (λ full.
              let e : next ≡ length block = ground arith in
              subst
                (λ xs. Appends v xs (
                  put pools blank
                    (acquire_block pools blank (length (block ∷ older)) (size block older)
                      ∷ block
                      ∷ older)
                    0 count v))
                (sym (contents_full block older next e))
                (put_new-Appends (block ∷ older) count (size block older) v
                  (next_builder_block_size_pos (length (block ∷ older)) (length block)
                    (inr some_room))
                  (omega (arith, length-append (in_order older) block))))
            (λ room. put-Appends block older next count v (ground arith) counted)

  -- `finish` returns exactly what the builder holds: `count` neither cuts nor pads it.
  pub finish-contents : (b : Builder A) → IsBuilder b → finish pools blank b ≡ contents b
  unfolding finish
  finish-contents b w =
      ap (λ n. fit blank n (contents b)) (counts b.blocks b.next b.count w)
      ∙ take-append_exact (contents b) _

module _ {ℓ} {A : Type ℓ} (pools : Pools A) (blank : A) where
  abbrev pub append_all : Builder A → List A → Builder A
  append_all b [] = b
  append_all b (v ∷ vs) = append_all (append pools blank b v) vs

  append_all-contents :
      (b : Builder A) (vs : List A)
      → IsBuilder b
      → IsBuilder (append_all b vs) × (contents (append_all b vs) ≡ contents b ++ vs)
  append_all-contents b [] w = (w, sym (append-nil (contents b)))
  append_all-contents b (v ∷ vs) w =
      let a = append-Appends pools blank b v w in
      let (w', e) = append_all-contents (append pools blank b v) vs a.filled in
      (w', e ∙ ap (λ xs. xs ++ vs) a.holds ∙ append_assoc (contents b) (v ∷ []) vs)

  -- What was appended to an empty builder is what `finish` returns, in the same order and number,
  -- whatever blocks the pools give back.
  pub finish-append_all : (vs : List A) → finish pools blank (append_all empty_builder vs) ≡ vs
  finish-append_all vs =
      let (w, e) = append_all-contents empty_builder vs (refl, refl) in
      finish-contents pools blank (append_all empty_builder vs) w ∙ e
