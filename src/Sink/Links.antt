-- ===== src/Sink/Links.antt =====
-- compact_sink.go: the children of the nodes, and their fields, which are kept in the same way: up to
-- two of them in the node's slot, and more in a list of their own that the slot names. `owner` is the
-- column `children` (or `fields`) of the source's nodes; a node with 0 there has no slot yet.
pub mod Cells
pub mod Push
pub mod Wellformed
pub mod Ensure
pub mod Adds
use pawn_parser.Prelude.{
  ℕ, zero, suc, ◌+◌, Bool, true, false, List, [], ◌∷◌, ◌++◌, leb, ltb, ◌==◌, if◌then◌else◌, length,
  get_or, set, take,
}

-- `compactBuildChildren`, `compactBuildFields`
pub record Slot (A : Type 0) : Type 0 where
  pub first : A
  pub second : A
  pub count : ℕ
  pub spill : ℕ

pub record Links (A : Type 0) : Type 0 where
  pub owner : List ℕ
  pub slots : List (Slot A)
  pub spills : List (List A)

module _ {A : Type 0} (blank : A) where
  abbrev pub blank_slot : Slot A
  blank_slot = record { first = blank; second = blank; count = 0; spill = 0 }

  abbrev pub slot_at : Links A → ℕ → Slot A
  slot_at l i = get_or l.slots i blank_slot

  abbrev pub owned : Links A → ℕ → ℕ
  owned l n = get_or l.owner n 0

  -- `ensureChildren`, `ensureFields`: the slot of a node, which is made if there is none.
  unfoldable pub ensure : ℕ → Links A → ℕ × Links A
  ensure n l =
      if owned l n == 0
      then (
        length l.slots,
        record l { owner = set l.owner n (length l.slots); slots = l.slots ++ (blank_slot ∷ []) },
      )
      else (owned l n, l)

  -- `childItems`, `fieldItems`
  unfoldable pub slot_items : Slot A → List (List A) → List A
  slot_items s spills =
      if leb s.count 2 then take s.count (s.first ∷ s.second ∷ []) else get_or spills s.spill []

  -- `Children`, and the entries that `Field` looks through.
  unfoldable pub items : Links A → ℕ → List A
  unfolding slot_items
  items l n = if owned l n == 0 then [] else slot_items (slot_at l (owned l n)) l.spills

  -- An element more in the slot `i`: inside it, in a new list, or in its list. The count, of 32 bits
  -- in the source, does not wrap around here, and the number of lists is not bounded.
  unfoldable pub push_slot : ℕ → A → Links A → Links A
  push_slot i x l =
      let s = slot_at l i in
      if s.count == 0
      then record l { slots = set l.slots i (record s { first = x; count = 1 }) }
      else if s.count == 1
      then record l { slots = set l.slots i (record s { second = x; count = 2 }) }
      else if s.count == 2
      then record l {
        slots = set l.slots i (record s { count = 3; spill = length l.spills });
        spills = l.spills ++ ((s.first ∷ s.second ∷ x ∷ []) ∷ []);
      }
      else record l {
        slots = set l.slots i (record s { count = s.count + 1 });
        spills = set l.spills s.spill (get_or l.spills s.spill [] ++ (x ∷ []));
      }

  -- What `AddChild` and `SetField` do to the table.
  unfoldable pub push : ℕ → A → Links A → Links A
  unfolding ensure push_slot
  push n x l = push_slot (ensure n l).0 x (ensure n l).1

  -- What `SetChildren` does to the table.
  unfoldable pub put : ℕ → List A → Links A → Links A
  unfolding ensure
  put n xs l =
      let (i, k) = ensure n l in
      let s = slot_at k i in
      if leb (length xs) 2
      then record k {
        slots = set k.slots i (record {
          first = get_or xs 0 s.first;
          second = get_or xs 1 s.second;
          count = length xs;
          spill = 0;
        });
      }
      else record k {
        slots = set k.slots i (record s { count = length xs; spill = length k.spills });
        spills = k.spills ++ (xs ∷ []);
      }
