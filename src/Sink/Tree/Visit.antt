-- ===== src/Sink/Tree/Visit.antt =====
-- The nodes that are marked from a root are those it reaches.
use pawn_parser.Prelude.{
  ℕ, zero, suc, ◌+◌, ◌≤◌, ◌<◌, ◌≡◌, ◌≢◌, refl, sym, ap, subst, ◌∙◌, ◌⊎◌, inl, inr, true, false,
  List, [], ◌∷◌, some, arith, Bool-cases, length, set, replicate, length-set, length-replicate,
}
use pawn_parser.Sink.Links.Cells.{get_or-set_same, get_or-set_other}
use pawn_parser.Sink.Tree.{mark, push_all, mapped, passes_over, edges, visit_loop}
use pawn_parser.Sink.Tree.Paths.{
  Among, Reaches, here, there, in_stack, in_children, in_either, length-push_all, same_or_not,
  unseen, unseen_le, unseen_marked,
}

module _ (kids : ℕ → List ℕ) where
  module _ (root n : ℕ) (within : (id c : ℕ) → Among c (kids id) → (0 < c) × (c < n)) where
    -- A node is marked, or will be.
    abbrev Seen : List ℕ → List ℕ → ℕ → Type 0
    Seen remap stack c = (mapped remap c ≢ 0) ⊎ Among c stack

    record Visiting (remap stack : List ℕ) : Type 0 where
      width : length remap ≡ n
      zero_free : mapped remap 0 ≡ 0
      stacked : (c : ℕ) → Among c stack → (0 < c) × (c < n)
      followed : (id c : ℕ) → mapped remap id ≢ 0 → Among c (kids id) → Seen remap stack c
      starts : Seen remap stack root
      marked_reached : (c : ℕ) → mapped remap c ≢ 0 → Reaches kids root c
      stack_reached : (c : ℕ) → Among c stack → Reaches kids root c

    pass_over :
        (remap : List ℕ) (id : ℕ) (stack : List ℕ)
        → passes_over remap id ≡ true
        → Visiting remap (id ∷ stack)
        → Visiting remap stack
    pass_over remap id stack e v = record {
      width = v.width;
      zero_free = v.zero_free;
      stacked = λ c h. v.stacked c (inr h);
      followed = λ k c m h. still c (v.followed k c m h);
      starts = still root v.starts;
      marked_reached = v.marked_reached;
      stack_reached = λ c h. v.stack_reached c (inr h);
    }
      where
        seen : mapped remap id ≢ 0
        seen = let (a, b) = v.stacked id (inl refl) in let w = v.width in ground arith

        still : (c : ℕ) → Seen remap (id ∷ stack) c → Seen remap stack c
        still c (inl m) = inl m
        still c (inr (inl q)) = inl (λ z. seen (ap (mapped remap) (sym q) ∙ z))
        still c (inr (inr h)) = inr h

    visit :
        (remap : List ℕ) (id : ℕ) (stack : List ℕ)
        → passes_over remap id ≡ false
        → Visiting remap (id ∷ stack)
        → Visiting (set remap id mark) (push_all (kids id) stack)
    visit remap id stack e v = record {
      width = length-set remap id mark ∙ v.width;
      zero_free = elim (same_or_not 0 id) [
        | inl q ↦ absurd (omega (arith, q, bounds))
        | inr q ↦ other 0 q ∙ v.zero_free
      ];
      stacked = λ c h. elim (in_either c (kids id) stack h) [
        | inl a ↦ within id c a
        | inr a ↦ v.stacked c (inr a)
      ];
      followed = λ k c m h. elim (same_or_not k id) [
        | inl q ↦ inr (in_children c (kids id) stack (subst (λ x. Among c (kids x)) q h))
        | inr q ↦ still c (v.followed k c (λ z. m (other k q ∙ z)) h)
      ];
      starts = still root v.starts;
      marked_reached = λ c m. elim (same_or_not c id) [
        | inl q ↦ subst (Reaches kids root) (sym q) reached
        | inr q ↦ v.marked_reached c (λ z. m (other c q ∙ z))
      ];
      stack_reached = λ c h. elim (in_either c (kids id) stack h) [
        | inl a ↦ there c reached a
        | inr a ↦ v.stack_reached c (inr a)
      ];
    }
      where
        bounds : (0 < id) × (id < n)
        bounds = v.stacked id (inl refl)

        reached : Reaches kids root id
        reached = v.stack_reached id (inl refl)

        other : (c : ℕ) → c ≢ id → mapped (set remap id mark) c ≡ mapped remap c
        other c q = get_or-set_other remap id c mark 0 (λ z. q (sym z))

        own : mapped (set remap id mark) id ≢ 0
        own z =
            let m = get_or-set_same remap id mark 0 (omega (arith, bounds, v.width)) in
            omega (arith, m, z)

        still :
            (c : ℕ)
            → Seen remap (id ∷ stack) c
            → Seen (set remap id mark) (push_all (kids id) stack) c
        still c (inl m) = elim (same_or_not c id) [
          | inl q ↦ inl (λ z. own (ap (mapped (set remap id mark)) (sym q) ∙ z))
          | inr q ↦ inl (λ z. m (sym (other c q) ∙ z))
        ]
        still c (inr (inl q)) = inl (λ z. own (ap (mapped (set remap id mark)) (sym q) ∙ z))
        still c (inr (inr h)) = inr (in_stack c (kids id) stack h)

    -- All that is marked, and whose children are marked, is what the root reaches.
    pub record Visited (remap : List ℕ) : Type 0 where
      pub width : length remap ≡ n
      pub zero_free : mapped remap 0 ≡ 0
      pub followed : (id c : ℕ) → mapped remap id ≢ 0 → Among c (kids id) → mapped remap c ≢ 0
      pub starts : mapped remap root ≢ 0
      pub marked_reached : (c : ℕ) → mapped remap c ≢ 0 → Reaches kids root c

    visit_loop-Visited :
        (fuel : ℕ) (remap stack : List ℕ)
        → Visiting remap stack
        → length stack + unseen kids remap n ≤ fuel
        → (r : List ℕ) × (visit_loop kids fuel remap stack ≡ some r) × Visited r
    unfolding visit_loop
    visit_loop-Visited fuel remap [] v h = (
      remap,
      refl,
      record {
        width = v.width;
        zero_free = v.zero_free;
        followed = λ id c m a. no_stack c (v.followed id c m a);
        starts = no_stack root v.starts;
        marked_reached = v.marked_reached;
      },
    )
      where
        no_stack : (c : ℕ) → Seen remap [] c → mapped remap c ≢ 0
        no_stack c (inl m) = m
        no_stack c (inr b) = absurd b
    visit_loop-Visited zero remap (id ∷ stack) v h = absurd (omega arith)
    visit_loop-Visited (suc fuel) remap (id ∷ stack) v h =
        elim (Bool-cases (passes_over remap id)) [
          | inl e ↦
              let (r, f, w) =
                visit_loop-Visited fuel remap stack (pass_over remap id stack e v) (omega arith) in
              (r, rw (e, visit_loop) f, w)
          | inr e ↦
              let (a, b) = v.stacked id (inl refl) in
              let z : mapped remap id ≡ 0 = ground arith in
              let u = unseen_marked kids remap n id b (omega (arith, b, v.width)) z in
              let l = length-push_all (kids id) stack in
              let (r, f, w) =
                visit_loop-Visited fuel (set remap id mark) (push_all (kids id) stack)
                  (visit remap id stack e v) (omega (arith, u, l)) in
              (r, rw (e, visit_loop) f, w)
        ]

    pub Visited-from_root :
        0 < root
        → root < n
        → (r : List ℕ) × (visit_loop kids (edges kids n + 1) (replicate n 0) (root ∷ []) ≡ some r)
          × Visited r
    Visited-from_root a b =
        visit_loop-Visited (edges kids n + 1) (replicate n 0) (root ∷ [])
          (record {
            width = length-replicate n 0;
            zero_free = unmarked n 0;
            stacked = λ c h. on_root c h;
            followed = λ id c m h. absurd (m (unmarked n id));
            starts = inr (inl refl);
            marked_reached = λ c m. absurd (m (unmarked n c));
            stack_reached = λ c h. root_reached c h;
          })
          (omega (arith, unseen_le kids (replicate n 0) n))
      where
        unmarked : (n c : ℕ) → mapped (replicate n 0) c ≡ 0
        unmarked zero c = refl
        unmarked (suc n) zero = refl
        unmarked (suc n) (suc c) = unmarked n c

        on_root : (c : ℕ) → Among c (root ∷ []) → (0 < c) × (c < n)
        on_root c (inl q) = (omega arith, omega arith)
        on_root c (inr h) = absurd h

        root_reached : (c : ℕ) → Among c (root ∷ []) → Reaches kids root c
        root_reached c (inl q) = subst (Reaches kids root) (sym q) here
        root_reached c (inr h) = absurd h
