-- ===== src/Sink/Links/Wellformed.antt =====
-- The tables of children that are well formed, and what a write to one slot does to them.
use pawn_parser.Prelude.{
  ℕ, ◌≤◌, ◌<◌, ◌≡◌, ◌≢◌, refl, sym, ap, ◌∙◌, subst, List, [], ◌∷◌, ◌++◌, ◌⊎◌, inl, inr, arith, leb,
  Bool-cases, length, get_or, set, length-set,
}
use pawn_parser.Sink.Links.{Slot, Links, blank_slot, slot_at, owned, slot_items}
use pawn_parser.Sink.Links.Cells.{get_or-set_same, get_or-set_other}

module _ {A : Type 0} (blank : A) where
  abbrev pub stored : Links A → ℕ → Slot A
  stored l i = slot_at blank l i

  abbrev pub spill_of : Links A → ℕ → List A
  spill_of l i = get_or l.spills (stored l i).spill []

  -- Each node has a slot of its own, and each slot with more than two elements a list of its own, of
  -- as many elements as the slot counts.
  pub record IsLinks (l : Links A) : Type 0 where
    pub bounded : (n : ℕ) → owned blank l n < length l.slots
    pub apart : (n m : ℕ) → owned blank l n ≢ 0 → owned blank l n ≡ owned blank l m → n ≡ m
    pub spilled :
        (i : ℕ)
        → i < length l.slots
        → 2 < (stored l i).count
        → ((stored l i).spill < length l.spills) × (length (spill_of l i) ≡ (stored l i).count)
    pub spills_apart :
        (i j : ℕ)
        → i < length l.slots
        → j < length l.slots
        → 2 < (stored l i).count
        → 2 < (stored l j).count
        → (stored l i).spill ≡ (stored l j).spill
        → i ≡ j

  -- The slot `i` has got the element `x`.
  pub record Pushed (l : Links A) (i : ℕ) (x : A) (k : Links A) : Type 0 where
    pub same_owner : k.owner ≡ l.owner
    pub pushed :
        slot_items blank (stored k i) k.spills ≡ slot_items blank (stored l i) l.spills ++ (x ∷ [])
    pub others :
        (j : ℕ)
        → j < length l.slots
        → j ≢ i
        → slot_items blank (stored k j) k.spills ≡ slot_items blank (stored l j) l.spills
    pub still : IsLinks k

  -- Only a slot with more than two elements looks at the lists.
  pub kept_items :
      (t : Slot A) (ps qs : List (List A))
      → (2 < t.count → get_or ps t.spill [] ≡ get_or qs t.spill [])
      → slot_items blank t ps ≡ slot_items blank t qs
  unfolding slot_items
  kept_items t ps qs f = elim (Bool-cases (leb t.count 2)) [
    | inl e ↦ rw e refl
    | inr e ↦ rw e (f (ground arith))
  ]

  module _ (l : Links A) (w : IsLinks l) (i : ℕ) (h : i < length l.slots) where
    -- What a read finds when the slot has been written.
    pub read_cases :
        (s : Slot A) (j : ℕ)
        → ((j ≡ i) × (get_or (set l.slots i s) j (blank_slot blank) ≡ s))
          ⊎ ((j ≢ i) × (get_or (set l.slots i s) j (blank_slot blank) ≡ stored l j))
    read_cases s j = elim (same_or_not j i) [
      | inl e ↦ inl (
        e,
        ap (λ n. get_or (set l.slots i s) n (blank_slot blank)) e
            ∙ get_or-set_same l.slots i s (blank_slot blank) h,
      )
      | inr n ↦ inr (n, get_or-set_other l.slots i j s (blank_slot blank) (λ e. n (sym e)))
    ]
      where
        same_or_not : (a b : ℕ) → (a ≡ b) ⊎ (a ≢ b)
        same_or_not a b = ground arith

    -- A slot is written, and lists that no other slot uses.
    pub written :
        (x : A) (s : Slot A) (ps : List (List A))
        → slot_items blank s ps ≡ slot_items blank (stored l i) l.spills ++ (x ∷ [])
        → length l.spills ≤ length ps
        → ((j : ℕ)
            → j < length l.slots
            → j ≢ i
            → 2 < (stored l j).count
            → get_or ps (stored l j).spill [] ≡ spill_of l j)
        → (2 < s.count
            → (s.spill < length ps)
              × (length (get_or ps s.spill []) ≡ s.count)
              × ((j : ℕ)
                  → j < length l.slots
                  → j ≢ i
                  → 2 < (stored l j).count
                  → (stored l j).spill ≢ s.spill))
        → Pushed l i x (record l { slots = set l.slots i s; spills = ps })
    written x s ps e longer same own = record {
      same_owner = refl;
      pushed =
          ap (λ t. slot_items blank t ps) (get_or-set_same l.slots i s (blank_slot blank) h) ∙ e;
      others = λ j r n.
          ap (λ t. slot_items blank t ps)
            (get_or-set_other l.slots i j s (blank_slot blank) (λ q. n (sym q)))
          ∙ kept_items (stored l j) ps l.spills (λ c. same j r n c);
      still = record {
        bounded = λ n. omega (arith, w.bounded n, length-set l.slots i s);
        apart = w.apart;
        spilled = spilled_still;
        spills_apart = apart_still;
      };
    }
      where
        new : Links A
        new = record l { slots = set l.slots i s; spills = ps }

        spilled_still :
            (j : ℕ)
            → j < length new.slots
            → 2 < (stored new j).count
            → ((stored new j).spill < length ps) × (length (spill_of new j) ≡ (stored new j).count)
        spilled_still j r c = elim (read_cases s j) [
          | inl (q, f) ↦
              let (a, b, _) = own (subst (λ (t : Slot A). 2 < t.count) f c) in
              subst
                (λ (t : Slot A). (t.spill < length ps) × (length (get_or ps t.spill []) ≡ t.count))
                (sym f) (a, b)
          | inr (n, f) ↦
              let c' = subst (λ (t : Slot A). 2 < t.count) f c in
              let r' : j < length l.slots = omega (arith, r, length-set l.slots i s) in
              let (a, b) = w.spilled j r' c' in
              subst
                (λ (t : Slot A). (t.spill < length ps) × (length (get_or ps t.spill []) ≡ t.count))
                (sym f) (omega arith, ap length (same j r' n c') ∙ b)
        ]

        apart_still :
            (j k : ℕ)
            → j < length new.slots
            → k < length new.slots
            → 2 < (stored new j).count
            → 2 < (stored new k).count
            → (stored new j).spill ≡ (stored new k).spill
            → j ≡ k
        apart_still j k r q c d f =
            let r' : j < length l.slots = omega (arith, r, length-set l.slots i s) in
            let q' : k < length l.slots = omega (arith, q, length-set l.slots i s) in
            elim (read_cases s j) [
              | inl (e, g) ↦ elim (read_cases s k) [
                | inl (e', g') ↦ e ∙ sym e'
                | inr (n', g') ↦
                    let (_, _, z) = own (subst (λ (t : Slot A). 2 < t.count) g c) in
                    absurd (
                      z k q' n' (subst (λ (t : Slot A). 2 < t.count) g' d) (
                        ap (λ (t : Slot A). t.spill) (sym g')
                        ∙ sym f
                        ∙ ap (λ (t : Slot A). t.spill) g))
              ]
              | inr (n, g) ↦ elim (read_cases s k) [
                | inl (e', g') ↦
                    let (_, _, z) = own (subst (λ (t : Slot A). 2 < t.count) g' d) in
                    absurd (
                      z j r' n (subst (λ (t : Slot A). 2 < t.count) g c) (
                        ap (λ (t : Slot A). t.spill) (sym g) ∙ f ∙ ap (λ (t : Slot A). t.spill) g'))
                | inr (n', g') ↦
                    w.spills_apart j k r' q' (subst (λ (t : Slot A). 2 < t.count) g c)
                      (subst (λ (t : Slot A). 2 < t.count) g' d)
                      (ap (λ (t : Slot A). t.spill) (sym g) ∙ f ∙ ap (λ (t : Slot A). t.spill) g')
              ]
            ]
