-- ===== src/Sink/Links/Adds.antt =====
-- Adding a child to a node adds it to that node's children and to no others.
use pawn_parser.Prelude.{
  ℕ, zero, suc, ◌<◌, ◌≡◌, ◌≢◌, refl, sym, ap, ◌∙◌, [], ◌∷◌, ◌++◌, arith, length, get_or,
}
use pawn_parser.Sink.Links.{Links, owned, ensure, items, push}
use pawn_parser.Sink.Links.Wellformed.{IsLinks, Pushed}
use pawn_parser.Sink.Links.Push.{push_slot-Pushed}
use pawn_parser.Sink.Links.Ensure.{Ensured, no_slot_lem, with_slot_lem, ensure-Ensured}

module _ {A : Type 0} (blank : A) where
  module _ (l : Links A) (n : ℕ) (x : A) (p : ℕ × Links A) (e : Ensured blank l n p) (r : Links A)
      (q : Pushed blank p.1 p.0 x r) where
    owned_before : (m : ℕ) → owned blank r m ≡ owned blank p.1 m
    owned_before m = ap (λ xs. get_or xs m 0) q.same_owner

    own_items : items blank r n ≡ items blank l n ++ (x ∷ [])
    own_items =
        let some_slot : 0 < p.0 = positive p.0 e.real in
        with_slot_lem blank r n p.0 (owned_before n ∙ e.owns) some_slot
        ∙ q.pushed
        ∙ ap (λ xs. xs ++ (x ∷ []))
            (sym (with_slot_lem blank p.1 n p.0 e.owns some_slot) ∙ e.same_items n)
      where
        positive : (a : ℕ) → a ≢ 0 → 0 < a
        positive a f = ground arith

    other_items : (m : ℕ) → m ≢ n → items blank r m ≡ items blank l m
    other_items m d = by_owner (owned blank p.1 m) refl ∙ e.same_items m
      where
        by_owner : (k : ℕ) → owned blank p.1 m ≡ k → items blank r m ≡ items blank p.1 m
        by_owner zero f =
            no_slot_lem blank r m (owned_before m ∙ f) ∙ sym (no_slot_lem blank p.1 m f)
        by_owner (suc k) f =
            with_slot_lem blank r m (suc k) (owned_before m ∙ f) (omega arith)
            ∙ q.others (suc k) (omega (arith, f, e.good.bounded m))
                (λ g. d (e.good.apart m n (λ z. absurd (omega (arith, f, z))) (f ∙ g ∙ sym e.owns)))
            ∙ sym (with_slot_lem blank p.1 m (suc k) f (omega arith))

  -- In tables where each node has a slot of its own and each long slot a list of its own, a child that
  -- is added to a node becomes the last of its children, no other node's children change, and the
  -- tables stay so.
  pub push-items :
      (l : Links A) (n : ℕ) (x : A)
      → IsLinks blank l
      → n < length l.owner
      → (items blank (push blank n x l) n ≡ items blank l n ++ (x ∷ []))
        × ((m : ℕ) → m ≢ n → items blank (push blank n x l) m ≡ items blank l m)
        × IsLinks blank (push blank n x l)
  unfolding push
  push-items l n x w h =
      let e = ensure-Ensured blank l n w h in
      let q = push_slot-Pushed blank (ensure blank n l).1 e.good (ensure blank n l).0 e.inside x in
      (
        own_items l n x (ensure blank n l) e (push blank n x l) q,
        other_items l n x (ensure blank n l) e (push blank n x l) q,
        q.still,
      )
