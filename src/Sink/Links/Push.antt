-- ===== src/Sink/Links/Push.antt =====
-- Adding an element to a slot adds it to what the slot holds and to nothing else.
use pawn_parser.Prelude.{
  ℕ, ◌+◌, ◌<◌, ◌≡◌, refl, sym, ap, ◌∙◌, true, false, List, [], ◌∷◌, ◌++◌, arith, leb, ◌==◌,
  if_cases, length, get_or, set, take, length-set, length-append,
}
use pawn_parser.Sink.Links.{Slot, Links, slot_items, push_slot}
use pawn_parser.Sink.Links.Cells.{
  get_or-set_same, get_or-set_other, get_or-snoc_last, get_or-snoc_other,
}
use pawn_parser.Sink.Links.Wellformed.{stored, spill_of, IsLinks, Pushed, written}

module _ {A : Type 0} (blank : A) (l : Links A) (w : IsLinks blank l) (i : ℕ)
    (h : i < length l.slots) where
  abbrev at : Links A → ℕ → Slot A
  at = stored blank

  abbrev list_of : Links A → ℕ → List A
  list_of = spill_of blank

  beyond_two : (n : ℕ) → (n == 0) ≡ false → (n == 1) ≡ false → (n == 2) ≡ false → 2 < n
  beyond_two n a b c = ground arith

  few_items :
      (s : Slot A) (ps : List (List A)) (n : ℕ)
      → s.count ≡ n
      → leb n 2 ≡ true
      → slot_items blank s ps ≡ take n (s.first ∷ s.second ∷ [])
  unfolding slot_items
  few_items s ps n e f = rw (e, f) refl

  many_items :
      (s : Slot A) (ps : List (List A)) → 2 < s.count → slot_items blank s ps ≡ get_or ps s.spill []
  unfolding slot_items
  many_items s ps h = let e : leb s.count 2 ≡ false = ground arith in rw e refl

  pub push_slot-Pushed : (x : A) → Pushed blank l i x (push_slot blank i x l)
  unfolding push_slot
  push_slot-Pushed x =
      let s = at l i in
      if_cases (Pushed blank l i x) (s.count == 0) _ _
        (λ e.
          written blank l w i h x (record s { first = x; count = 1 }) l.spills
            (few_items (record s { first = x; count = 1 }) l.spills 1 refl refl
              ∙ ap (λ xs. xs ++ (x ∷ [])) (sym (few_items s l.spills 0 (ground arith) refl)))
            (omega arith) (λ _ _ _ _. refl) (λ c. absurd (omega arith)))
        (λ n0.
          if_cases (Pushed blank l i x) (s.count == 1) _ _
            (λ e.
              written blank l w i h x (record s { second = x; count = 2 }) l.spills
                (few_items (record s { second = x; count = 2 }) l.spills 2 refl refl
                  ∙ ap (λ xs. xs ++ (x ∷ [])) (sym (few_items s l.spills 1 (ground arith) refl)))
                (omega arith) (λ _ _ _ _. refl) (λ c. absurd (omega arith)))
            (λ n1.
              if_cases (Pushed blank l i x) (s.count == 2) _ _ (λ e. spill x (ground arith))
                (λ n2. append_spill x (beyond_two s.count n0 n1 n2))))
    where
      spill :
          (x : A)
          → (at l i).count ≡ 2
          → Pushed blank l i x (record l {
            slots = set l.slots i (record (at l i) { count = 3; spill = length l.spills });
            spills = l.spills ++ (((at l i).first ∷ (at l i).second ∷ x ∷ []) ∷ []);
          })
      spill x e =
          let three = (at l i).first ∷ (at l i).second ∷ x ∷ [] in
          let t : Slot A = record (at l i) { count = 3; spill = length l.spills } in
          let ps = l.spills ++ (three ∷ []) in
          let last = get_or-snoc_last l.spills three [] in
          let room = length-append l.spills (three ∷ []) in
          written blank l w i h x t ps
            (many_items t ps (omega arith)
              ∙ last
              ∙ ap (λ xs. xs ++ (x ∷ [])) (sym (few_items (at l i) l.spills 2 e refl)))
            (omega (arith, room))
            (λ j r n c.
              get_or-snoc_other l.spills (at l j).spill three []
                (λ q. let (a, _) = w.spilled j r c in absurd (omega arith)))
            (λ c. (
              omega (arith, room),
              ap length last,
              λ j r n d q. let (a, _) = w.spilled j r d in absurd (omega arith),
            ))

      append_spill :
          (x : A)
          → 2 < (at l i).count
          → Pushed blank l i x (record l {
            slots = set l.slots i (record (at l i) { count = (at l i).count + 1 });
            spills = set l.spills (at l i).spill (list_of l i ++ (x ∷ []));
          })
      append_spill x c =
          let s = at l i in
          let (a, b) = w.spilled i h c in
          let t : Slot A = record s { count = s.count + 1 } in
          let ps = set l.spills s.spill (list_of l i ++ (x ∷ [])) in
          let there = get_or-set_same l.spills s.spill (list_of l i ++ (x ∷ [])) [] a in
          let room = length-set l.spills s.spill (list_of l i ++ (x ∷ [])) in
          written blank l w i h x t ps
            (many_items t ps (omega arith)
              ∙ there
              ∙ ap (λ xs. xs ++ (x ∷ [])) (sym (many_items s l.spills c)))
            (omega (arith, room))
            (λ j r n d.
              get_or-set_other l.spills s.spill (at l j).spill (list_of l i ++ (x ∷ [])) []
                (λ q. n (w.spills_apart j i r h d c (sym q))))
            (λ _. (
              omega (arith, room),
              ap length there ∙ omega (arith, b, length-append (list_of l i) (x ∷ [])),
              λ j r n d q. n (w.spills_apart j i r h d c q),
            ))
