-- ===== src/Sink/Links/Ensure.antt =====
-- A node that has no slot yet gets one, and no node's elements change.
use pawn_parser.Prelude.{
  ℕ, zero, suc, ◌+◌, ◌<◌, ◌≡◌, ◌≢◌, refl, sym, ap, ◌∙◌, subst, false, List, [], ◌∷◌, ◌++◌, ◌⊎◌, inl,
  inr, arith, ◌==◌, if_cases, length, get_or, set, length-set, length-append,
}
use pawn_parser.Sink.Links.{Slot, Links, blank_slot, owned, ensure, slot_items, items}
use pawn_parser.Sink.Links.Cells.{
  get_or-set_same, get_or-set_other, get_or-snoc_last, get_or-snoc_other,
}
use pawn_parser.Sink.Links.Wellformed.{stored, IsLinks}

module _ {A : Type 0} (blank : A) where
  abbrev at : Links A → ℕ → Slot A
  at = stored blank

  -- A node has a slot, and nobody's elements have changed.
  pub record Ensured (l : Links A) (n : ℕ) (p : ℕ × Links A) : Type 0 where
    pub owns : owned blank p.1 n ≡ p.0
    pub real : p.0 ≢ 0
    pub inside : p.0 < length p.1.slots
    pub same_items : (m : ℕ) → items blank p.1 m ≡ items blank l m
    pub width : length p.1.owner ≡ length l.owner
    pub good : IsLinks blank p.1

  few_none : (t : Slot A) (ps : List (List A)) → t.count ≡ 0 → slot_items blank t ps ≡ []
  unfolding slot_items
  few_none t ps e = rw e refl

  pub no_slot_lem : (l : Links A) (m : ℕ) → owned blank l m ≡ 0 → items blank l m ≡ []
  unfolding items
  no_slot_lem l m e = rw e refl

  pub with_slot_lem :
      (l : Links A) (m k : ℕ)
      → owned blank l m ≡ k
      → 0 < k
      → items blank l m ≡ slot_items blank (at l k) l.spills
  unfolding items
  with_slot_lem l m k e r = let f : (k == 0) ≡ false = ground arith in rw (e, f) refl

  module _ (l : Links A) (n : ℕ) (w : IsLinks blank l) (h : n < length l.owner) where
    abbrev fresh : Links A
    fresh = record l {
      owner = set l.owner n (length l.slots);
      slots = l.slots ++ (blank_slot blank ∷ []);
    }

    owner_cases :
        (m : ℕ)
        → ((m ≡ n) × (owned blank fresh m ≡ length l.slots))
          ⊎ ((m ≢ n) × (owned blank fresh m ≡ owned blank l m))
    owner_cases m = elim (same_or_not m n) [
      | inl e ↦ inl (
        e,
        ap (λ i. get_or (set l.owner n (length l.slots)) i 0) e
            ∙ get_or-set_same l.owner n (length l.slots) 0 h,
      )
      | inr d ↦ inr (d, get_or-set_other l.owner n m (length l.slots) 0 (λ e. d (sym e)))
    ]
      where
        same_or_not : (a b : ℕ) → (a ≡ b) ⊎ (a ≢ b)
        same_or_not a b = ground arith

    old_slot : (i : ℕ) → i < length l.slots → at fresh i ≡ at l i
    old_slot i r = get_or-snoc_other l.slots i (blank_slot blank) (blank_slot blank) (omega arith)

    -- A slot with more than two elements is an old one.
    old_spill : (i : ℕ) → i < length fresh.slots → 2 < (at fresh i).count → i < length l.slots
    old_spill i r c = elim (last_or_less i (length l.slots) below) [
      | inl e ↦ absurd (
          two_lt_zero (
            subst (λ (t : Slot A). 2 < t.count)
              (ap (at fresh) e ∙ get_or-snoc_last l.slots (blank_slot blank) (blank_slot blank)) c))
      | inr q ↦ q
    ]
      where
        below : i < length l.slots + 1
        below = omega (arith, r, length-append l.slots (blank_slot blank ∷ []))

        last_or_less : (a b : ℕ) → a < b + 1 → (a ≡ b) ⊎ (a < b)
        last_or_less a b q = ground arith

        two_lt_zero : ¬ (2 < 0)
        two_lt_zero q = omega arith

    fresh-IsLinks : IsLinks blank fresh
    fresh-IsLinks = record {
      bounded = λ m.
          let room = length-append l.slots (blank_slot blank ∷ []) in
          elim (owner_cases m) [
            | inl (_, e) ↦ omega (arith, e, room)
            | inr (_, e) ↦ omega (arith, e, room, w.bounded m)
          ];
      apart = λ a b r e. elim (owner_cases a) [
        | inl (p, f) ↦ elim (owner_cases b) [
          | inl (q, g) ↦ p ∙ sym q
          | inr (_, g) ↦ absurd (omega (arith, e, f, g, w.bounded b))
        ]
        | inr (_, f) ↦ elim (owner_cases b) [
          | inl (_, g) ↦ absurd (omega (arith, e, f, g, w.bounded a))
          | inr (_, g) ↦ w.apart a b (λ z. r (f ∙ z)) (sym f ∙ e ∙ g)
        ]
      ];
      spilled = λ i r c.
          let q = old_spill i r c in
          subst
            (λ (t : Slot A).
              (t.spill < length l.spills) × (length (get_or l.spills t.spill []) ≡ t.count))
            (sym (old_slot i q))
            (w.spilled i q (subst (λ (t : Slot A). 2 < t.count) (old_slot i q) c));
      spills_apart = λ i j r q c d e.
          let r' = old_spill i r c in
          let q' = old_spill j q d in
          w.spills_apart i j r' q' (subst (λ (t : Slot A). 2 < t.count) (old_slot i r') c)
            (subst (λ (t : Slot A). 2 < t.count) (old_slot j q') d)
            (ap (λ (t : Slot A). t.spill) (sym (old_slot i r'))
              ∙ e
              ∙ ap (λ (t : Slot A). t.spill) (old_slot j q'));
    }

    fresh_same : owned blank l n ≡ 0 → (m : ℕ) → items blank fresh m ≡ items blank l m
    fresh_same e m = elim (owner_cases m) [
      | inl (p, f) ↦
          with_slot_lem fresh m (length l.slots) f (omega (arith, w.bounded n))
          ∙ ap (λ (t : Slot A). slot_items blank t l.spills)
              (get_or-snoc_last l.slots (blank_slot blank) (blank_slot blank))
          ∙ no_items
          ∙ sym (no_slot_lem l m (ap (owned blank l) p ∙ e))
      | inr (_, f) ↦ same_owner m f (owned blank l m) refl
    ]
      where
        no_items : slot_items blank (blank_slot blank) l.spills ≡ []
        no_items = few_none (blank_slot blank) l.spills refl

        same_owner :
            (m : ℕ)
            → owned blank fresh m ≡ owned blank l m
            → (k : ℕ) → owned blank l m ≡ k
            → items blank fresh m ≡ items blank l m
        same_owner m f zero g = no_slot_lem fresh m (f ∙ g) ∙ sym (no_slot_lem l m g)
        same_owner m f (suc k) g =
            with_slot_lem fresh m (suc k) (f ∙ g) (omega arith)
            ∙ ap (λ (t : Slot A). slot_items blank t l.spills)
                (old_slot (suc k) (omega (arith, g, w.bounded m)))
            ∙ sym (with_slot_lem l m (suc k) g (omega arith))

  made :
      (l : Links A) (n : ℕ) (w : IsLinks blank l) (h : n < length l.owner)
      → owned blank l n ≡ 0
      → Ensured l n (length l.slots, fresh l n w h)
  made l n w h e = record {
    owns = get_or-set_same l.owner n (length l.slots) 0 h;
    real = λ q. absurd (omega (arith, w.bounded n));
    inside = omega (arith, length-append l.slots (blank_slot blank ∷ []));
    same_items = fresh_same l n w h e;
    width = length-set l.owner n (length l.slots);
    good = fresh-IsLinks l n w h;
  }

  pub ensure-Ensured :
      (l : Links A) (n : ℕ) → IsLinks blank l → n < length l.owner → Ensured l n (ensure blank n l)
  unfolding ensure
  ensure-Ensured l n w h =
      if_cases (Ensured l n) (owned blank l n == 0) _ _ (λ e. made l n w h (ground arith))
        (λ e. record {
          owns = refl;
          real = λ q. absurd (ground arith);
          inside = w.bounded n;
          same_items = λ m. refl;
          width = refl;
          good = w;
        })
