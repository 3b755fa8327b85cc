-- ===== src/Sink/Build/Tables.antt =====
-- Changes to the tables for new nodes leave what the tables held before.
use pawn_parser.Prelude.{
  ap, take-length, get_or-beyond, ℕ, ◌+◌, ◌≤◌, ◌<◌, ◌≡◌, ◌≢◌, sym, subst, ◌∙◌, inl, inr, false,
  List, [], ◌∷◌, ◌++◌, arith, leb, ◌==◌, if_cases, length, get_or, set, take, length-set,
  length-append,
}
use pawn_parser.Sink.Links.{Slot, Links, blank_slot, slot_at, owned, ensure, push_slot, push, put}
use pawn_parser.Sink.Build.{cut_links}
use pawn_parser.Sink.Build.Columns.{
  take-set_behind, take-append_behind, get_or-snoc_default, get_or-set_either,
}

module _ {A : Type 0} (blank : A) (old : Links A) where
  -- The table begins as `old`, and its new nodes have only new slots with new lists.
  pub record Grown (l : Links A) : Type 0 where
    pub owner_is : take (length old.owner) l.owner ≡ old.owner
    pub slots_are : take (length old.slots) l.slots ≡ old.slots
    pub spills_are : take (length old.spills) l.spills ≡ old.spills
    pub nodes_grow : length old.owner ≤ length l.owner
    pub slots_grow : length old.slots ≤ length l.slots
    pub spills_grow : length old.spills ≤ length l.spills
    pub new_slots :
        (n : ℕ) → length old.owner ≤ n → owned blank l n ≢ 0 → length old.slots ≤ owned blank l n
    pub new_spills :
        (i : ℕ)
        → length old.slots ≤ i
        → 2 < (slot_at blank l i).count
        → length old.spills ≤ (slot_at blank l i).spill

  pub node-Grown : (l : Links A) → Grown l → Grown (record l { owner = l.owner ++ (0 ∷ []) })
  node-Grown l g = record {
    owner_is = take-append_behind (length old.owner) l.owner (0 ∷ []) g.nodes_grow ∙ g.owner_is;
    slots_are = g.slots_are;
    spills_are = g.spills_are;
    nodes_grow = omega (arith, g.nodes_grow, length-append l.owner (0 ∷ []));
    slots_grow = g.slots_grow;
    spills_grow = g.spills_grow;
    new_slots = λ n h r.
        let e = get_or-snoc_default l.owner n 0 in
        subst (λ x. length old.slots ≤ x) (sym e) (g.new_slots n h (λ z. r (e ∙ z)));
    new_spills = g.new_spills;
  }

  -- The slot of a new node is new.
  pub ensure-Grown :
      (n : ℕ) (l : Links A)
      → length old.owner ≤ n
      → Grown l
      → (length old.slots ≤ (ensure blank n l).0) × Grown (ensure blank n l).1
  unfolding ensure
  ensure-Grown n l h g =
      if_cases (λ (p : ℕ × Links A). (length old.slots ≤ p.0) × Grown p.1) (owned blank l n == 0) _
        _
        (λ e. (
          g.slots_grow,
          record {
            owner_is = take-set_behind (length old.owner) l.owner n (length l.slots) h ∙ g.owner_is;
            slots_are =
                take-append_behind (length old.slots) l.slots (blank_slot blank ∷ []) g.slots_grow
                ∙ g.slots_are;
            spills_are = g.spills_are;
            nodes_grow = omega (arith, g.nodes_grow, length-set l.owner n (length l.slots));
            slots_grow = omega (arith, g.slots_grow, length-append l.slots (blank_slot blank ∷ []));
            spills_grow = g.spills_grow;
            new_slots = λ m k r. elim (get_or-set_either l.owner n m (length l.slots) 0) [
              | inl f ↦ omega (arith, f, g.slots_grow)
              | inr f ↦ subst (λ x. length old.slots ≤ x) (sym f) (g.new_slots m k (λ z. r (f ∙ z)))
            ];
            new_spills = λ i k c.
                let f = get_or-snoc_default l.slots i (blank_slot blank) in
                subst (λ (t : Slot A). length old.spills ≤ t.spill) (sym f)
                  (g.new_spills i k (subst (λ (t : Slot A). 2 < t.count) f c));
          },
        ))
        (λ e. (g.new_slots n h (λ z. absurd (ground arith)), g))

  -- A new slot is written, and lists at the end or of new slots.
  slot-Grown :
      (l : Links A) (i : ℕ) (s : Slot A) (ps : List (List A))
      → length old.slots ≤ i
      → Grown l
      → take (length old.spills) ps ≡ old.spills
      → length old.spills ≤ length ps
      → (2 < s.count → length old.spills ≤ s.spill)
      → Grown (record l { slots = set l.slots i s; spills = ps })
  slot-Grown l i s ps h g e w c = record {
    owner_is = g.owner_is;
    slots_are = take-set_behind (length old.slots) l.slots i s h ∙ g.slots_are;
    spills_are = e;
    nodes_grow = g.nodes_grow;
    slots_grow = omega (arith, g.slots_grow, length-set l.slots i s);
    spills_grow = w;
    new_slots = g.new_slots;
    new_spills = λ j k d. elim (get_or-set_either l.slots i j s (blank_slot blank)) [
      | inl f ↦
          subst (λ (t : Slot A). length old.spills ≤ t.spill) (sym f)
            (c (subst (λ (t : Slot A). 2 < t.count) f d))
      | inr f ↦
          subst (λ (t : Slot A). length old.spills ≤ t.spill) (sym f)
            (g.new_spills j k (subst (λ (t : Slot A). 2 < t.count) f d))
    ];
  }

  appended :
      (l : Links A) (xs : List A)
      → Grown l
      → (take (length old.spills) (l.spills ++ (xs ∷ [])) ≡ old.spills)
        × (length old.spills ≤ length (l.spills ++ (xs ∷ [])))
  appended l xs g = (
    take-append_behind (length old.spills) l.spills (xs ∷ []) g.spills_grow ∙ g.spills_are,
    omega (arith, g.spills_grow, length-append l.spills (xs ∷ [])),
  )

  push_slot-Grown :
      (i : ℕ) (x : A) (l : Links A) → length old.slots ≤ i → Grown l → Grown (push_slot blank i x l)
  unfolding push_slot
  push_slot-Grown i x l h g =
      let s = slot_at blank l i in
      if_cases Grown (s.count == 0) _ _
        (λ e.
          slot-Grown l i (record s { first = x; count = 1 }) l.spills h g g.spills_are g.spills_grow
            (λ c. absurd (omega arith)))
        (λ n0.
          if_cases Grown (s.count == 1) _ _
            (λ e.
              slot-Grown l i (record s { second = x; count = 2 }) l.spills h g g.spills_are
                g.spills_grow (λ c. absurd (omega arith)))
            (λ n1.
              if_cases Grown (s.count == 2) _ _
                (λ e.
                  let (a, b) = appended l (s.first ∷ s.second ∷ x ∷ []) g in
                  slot-Grown l i (record s { count = 3; spill = length l.spills }) _ h g a b
                    (λ c. g.spills_grow))
                (λ n2.
                  let c : 2 < s.count = beyond_two s.count n0 n1 n2 in
                  let k = g.new_spills i h c in
                  let longer = get_or l.spills s.spill [] ++ (x ∷ []) in
                  slot-Grown l i (record s { count = s.count + 1 }) (set l.spills s.spill longer) h
                    g (take-set_behind (length old.spills) l.spills s.spill longer k ∙ g.spills_are)
                    (omega (arith, g.spills_grow, length-set l.spills s.spill longer)) (λ _. k))))
    where
      beyond_two : (n : ℕ) → (n == 0) ≡ false → (n == 1) ≡ false → (n == 2) ≡ false → 2 < n
      beyond_two n a b c = ground arith

  pub push-Grown :
      (n : ℕ) (x : A) (l : Links A) → length old.owner ≤ n → Grown l → Grown (push blank n x l)
  unfolding push
  push-Grown n x l h g = let (a, b) = ensure-Grown n l h g in push_slot-Grown _ x _ a b

  pub put-Grown :
      (n : ℕ) (xs : List A) (l : Links A)
      → length old.owner ≤ n
      → Grown l
      → Grown (put blank n xs l)
  unfolding put
  put-Grown n xs l h g =
      let (a, b) = ensure-Grown n l h g in
      let k = (ensure blank n l).1 in
      if_cases Grown (leb (length xs) 2) _ _
        (λ e. slot-Grown k _ _ k.spills a b b.spills_are b.spills_grow (λ c. absurd (ground arith)))
        (λ e. let (u, v) = appended k xs b in slot-Grown k _ _ _ a b u v (λ c. b.spills_grow))

  pub self-Grown : Grown old
  self-Grown = record {
    owner_is = take-length (length old.owner) old.owner (omega arith);
    slots_are = take-length (length old.slots) old.slots (omega arith);
    spills_are = take-length (length old.spills) old.spills (omega arith);
    nodes_grow = omega arith;
    slots_grow = omega arith;
    spills_grow = omega arith;
    new_slots = λ n h r. absurd (r (get_or-beyond old.owner n 0 h));
    new_spills = λ i h c. absurd (
        few
          (subst (λ (t : Slot A). 2 < t.count) (get_or-beyond old.slots i (blank_slot blank) h) c));
  }
    where
      few : 2 < 0 → ⊥
      few h = omega arith

  -- Cut to the sizes of the old table, it is the old table.
  pub Grown-cut :
      (l : Links A) {nodes : ℕ}
      → length old.owner ≡ nodes
      → Grown l
      → cut_links nodes (length old.slots) (length old.spills) l ≡ old
  Grown-cut l e g = λ i. record {
    owner = (ap (λ n. take n l.owner) (sym e) ∙ g.owner_is) i;
    slots = g.slots_are i;
    spills = g.spills_are i;
  }
