-- ===== src/Sink/Tree/Packs.antt =====
-- The nodes of the compact tree as the loop of `tree` writes them.
use pawn_parser.Prelude.{
  ℕ, zero, suc, ◌+◌, ◌-◌, ◌≤◌, ◌<◌, ◌≡◌, ◌≢◌, refl, sym, ap, subst, ◌∙◌, List, [], ◌∷◌, ◌++◌,
  Option, none, some, arith, ◌==◌, if_cases, length, get_or, set, slice, length-set, map,
  append_assoc, append-nil,
}
use pawn_parser.Lexer.Attach.Slices.{slice_between}
use pawn_parser.Sink.Links.Cells.{get_or-set_same, get_or-set_other}
use pawn_parser.Sink.Nodes.{CompactNode, BuildError, Sink, blank_node, children_of, error_of}
use pawn_parser.Sink.Tree.{
  CompactField, Packing, index_of, kids_indices, fields_indices, linked, add_error, pack_node,
}
use pawn_parser.Sink.Tree.Numbers.{Numbered}

module _ (s : Sink) (remap : List ℕ) where
  -- What a round for a node does: the node stands in its place, its edges at the end.
  pub record Placed (place id : ℕ) (p q : Packing) : Type 0 where
    pub node_is :
        get_or q.records place blank_node ≡ linked s remap p id (get_or p.records id blank_node)
    pub others : (j : ℕ) → j ≢ place → get_or q.records j blank_node ≡ get_or p.records j blank_node
    pub width : length q.records ≡ length p.records
    pub children_are : q.children ≡ p.children ++ kids_indices s remap id
    pub fields_are : q.fields ≡ p.fields ++ fields_indices s remap id

  add_error-Placed :
      (place id index : ℕ) (o : Option BuildError) (p q : Packing)
      → Placed place id p q
      → Placed place id p (add_error s remap index o q)
  unfolding add_error
  add_error-Placed place id index none p q h = h
  add_error-Placed place id index (some e) p q h = record {
    node_is = h.node_is;
    others = h.others;
    width = h.width;
    children_are = h.children_are;
    fields_are = h.fields_are;
  }

  -- A node that has been moved to its place is linked there.
  Placed-linked :
      (place id : ℕ) (p : Packing) (xs : List CompactNode)
      → length xs ≡ length p.records
      → place < length p.records
      → get_or xs place blank_node ≡ get_or p.records id blank_node
      → ((j : ℕ) → j ≢ place → get_or xs j blank_node ≡ get_or p.records j blank_node)
      → Placed place id p (record p {
        records = set xs place (linked s remap p id (get_or xs place blank_node));
        children = p.children ++ kids_indices s remap id;
        fields = p.fields ++ fields_indices s remap id;
      })
  Placed-linked place id p xs w l e h =
      let new = linked s remap p id (get_or xs place blank_node) in
      record {
        node_is =
            get_or-set_same xs place new blank_node (omega (arith, w)) ∙ ap (linked s remap p id) e;
        others = λ j q. get_or-set_other xs place j new blank_node (λ z. q (sym z)) ∙ h j q;
        width = length-set xs place new ∙ w;
        children_are = refl;
        fields_are = refl;
      }

  pub pack_node-Placed :
      (place id : ℕ) (p : Packing)
      → place ≤ id
      → id < length p.records
      → Placed place id p (pack_node s remap place id p)
  unfolding pack_node
  pack_node-Placed place id p l r = add_error-Placed place id (place - 1) (error_of s id) p _ (
      if_cases
        (λ (xs : List CompactNode). Placed place id p (record p {
          records = set xs place (linked s remap p id (get_or xs place blank_node));
          children = p.children ++ kids_indices s remap id;
          fields = p.fields ++ fields_indices s remap id;
        }))
        (place == id) _ _
        (λ e.
          let q : place ≡ id = ground arith in
          Placed-linked place id p p.records refl (omega arith)
            (ap (λ j. get_or p.records j blank_node) q) (λ j n. refl))
        (λ e.
          let moved = get_or p.records id blank_node in
          Placed-linked place id p (set p.records place moved) (length-set p.records place moved)
            (omega arith) (get_or-set_same p.records place moved blank_node (omega arith))
            (λ j n. get_or-set_other p.records place j moved blank_node (λ z. n (sym z)))))

  -- A node stands in its place, with the slices of its edges.
  pub record Packed (p : Packing) (place id : ℕ) (r : CompactNode) : Type 0 where
    pub child_start : ℕ
    pub field_start : ℕ
    pub stands : get_or p.records place blank_node ≡ record r {
      child_start = child_start;
      child_count = length (children_of s id);
      field_start = field_start;
      field_count = length (fields_indices s remap id);
    }
    pub children_slice :
        slice p.children child_start (child_start + length (children_of s id))
        ≡ kids_indices s remap id
    pub fields_slice :
        slice p.fields field_start (field_start + length (fields_indices s remap id))
        ≡ fields_indices s remap id

  -- What the rounds for the places `rs` leave.
  pub record Packs (c : ℕ) (rs : List ℕ) (id : ℕ) (p q : Packing) : Type 0 where
    pub width : length q.records ≡ length p.records
    pub before : (j : ℕ) → j ≤ c → get_or q.records j blank_node ≡ get_or p.records j blank_node
    pub more_children : List ℕ
    pub children_are : q.children ≡ p.children ++ more_children
    pub more_fields : List CompactField
    pub fields_are : q.fields ≡ p.fields ++ more_fields
    pub packed_all :
        (i m : ℕ)
        → get_or rs i 0 ≡ suc m
        → Packed q (suc m) (id + i) (get_or p.records (id + i) blank_node)

  pub length-kids : (id : ℕ) → length (kids_indices s remap id) ≡ length (children_of s id)
  length-kids id = length-map (index_of remap) (children_of s id)
    where
      length-map : (f : ℕ → ℕ) (xs : List ℕ) → length (map f xs) ≡ length xs
      length-map f [] = refl
      length-map f (x ∷ xs) = ap suc (length-map f xs)

  next :
      (id : ℕ) (records : List CompactNode) (q : Packing) (i m : ℕ)
      → Packed q (suc m) (id + 1 + i) (get_or records (id + 1 + i) blank_node)
      → Packed q (suc m) (id + suc i) (get_or records (id + suc i) blank_node)
  next id records q i m h =
      subst (λ n. Packed q (suc m) n (get_or records n blank_node)) (omega arith) h

  -- The rounds behind the first one, counted from the first.
  shifted :
      (id : ℕ) (rs : List ℕ) (records : List CompactNode) (q : Packing) (r : ℕ)
      → r ≡ 0
      → (i m : ℕ) → get_or (r ∷ rs) i 0 ≡ suc m
      → ((k n : ℕ)
          → get_or rs k 0 ≡ suc n
          → Packed q (suc n) (id + 1 + k) (get_or records (id + 1 + k) blank_node))
      → Packed q (suc m) (id + i) (get_or records (id + i) blank_node)
  shifted id rs records q r z zero m e h = absurd (omega (arith, e, z))
  shifted id rs records q r z (suc i) m e h = next id records q i m (h i m e)

  -- The round of a node, and then the others.
  with_node :
      (c r : ℕ) (rs : List ℕ) (id : ℕ) (p : Packing) {p' q : Packing}
      → r ≡ c
      → c < id
      → Placed (suc r) id p p'
      → Packs (suc c) rs (id + 1) p' q
      → Packs c (suc r ∷ rs) id p q
  with_node c r rs id p {p'} {q} z l a k = record {
    width = k.width ∙ a.width;
    before = λ j h. k.before j (omega arith) ∙ a.others j (λ e. absurd (omega arith));
    more_children = kids_indices s remap id ++ k.more_children;
    children_are = children;
    more_fields = fields_indices s remap id ++ k.more_fields;
    fields_are = fields;
    packed_all = all;
  }
    where
      children : q.children ≡ p.children ++ (kids_indices s remap id ++ k.more_children)
      children =
          k.children_are
          ∙ ap (λ xs. xs ++ k.more_children) a.children_are
          ∙ append_assoc p.children (kids_indices s remap id) k.more_children

      fields : q.fields ≡ p.fields ++ (fields_indices s remap id ++ k.more_fields)
      fields =
          k.fields_are
          ∙ ap (λ xs. xs ++ k.more_fields) a.fields_are
          ∙ append_assoc p.fields (fields_indices s remap id) k.more_fields

      first : Packed q (suc r) id (get_or p.records id blank_node)
      first = record {
        child_start = length p.children;
        field_start = length p.fields;
        stands = k.before (suc r) (omega arith) ∙ a.node_is;
        children_slice =
            ap (λ xs. slice xs (length p.children) (length p.children + length (children_of s id)))
              children
            ∙ slice_between p.children (kids_indices s remap id) k.more_children (length p.children)
                (length p.children + length (children_of s id)) refl
                (ap (λ n. length p.children + n) (sym (length-kids id)));
        fields_slice =
            ap
              (λ xs.
                slice xs (length p.fields) (length p.fields + length (fields_indices s remap id)))
              fields
            ∙ slice_between p.fields (fields_indices s remap id) k.more_fields (length p.fields)
                (length p.fields + length (fields_indices s remap id)) refl refl;
      }

      all :
          (i m : ℕ)
          → get_or (suc r ∷ rs) i 0 ≡ suc m
          → Packed q (suc m) (id + i) (get_or p.records (id + i) blank_node)
      all zero m e =
          subst (λ n. Packed q n (id + 0) (get_or p.records (id + 0) blank_node)) e
            (subst (λ n. Packed q (suc r) n (get_or p.records n blank_node)) (omega arith) first)
      all (suc i) m e = next id p.records q i m (
          subst (λ x. Packed q (suc m) (id + 1 + i) x)
            (a.others (id + 1 + i) (λ f. absurd (omega arith))) (k.packed_all i m e))

  -- The rounds as they are without a panic.
  unfoldable pub write_loop : List ℕ → ℕ → Packing → Packing
  unfolding pack_node
  write_loop [] id p = p
  write_loop (zero ∷ rest) id p = write_loop rest (id + 1) p
  write_loop (suc index ∷ rest) id p = write_loop rest (id + 1) (pack_node s remap (suc index) id p)

  pub write_loop-Packs :
      (c : ℕ) (rs : List ℕ) (id : ℕ) (p : Packing)
      → Numbered c rs
      → c < id
      → id + length rs ≤ length p.records
      → Packs c rs id p (write_loop rs id p)
  unfolding write_loop
  write_loop-Packs c [] id p h l w = record {
    width = refl;
    before = λ j _. refl;
    more_children = [];
    children_are = sym (append-nil p.children);
    more_fields = [];
    fields_are = sym (append-nil p.fields);
    packed_all = λ i m e. absurd (omega (arith, e));
  }
  write_loop-Packs c (zero ∷ rs) id p h l w =
      let k = write_loop-Packs c rs (id + 1) p h (omega arith) (omega arith) in
      record {
        width = k.width;
        before = k.before;
        more_children = k.more_children;
        children_are = k.children_are;
        more_fields = k.more_fields;
        fields_are = k.fields_are;
        packed_all =
            λ i m e. shifted id rs p.records (write_loop rs (id + 1) p) 0 refl i m e k.packed_all;
      }
  write_loop-Packs c (suc r ∷ rs) id p (z, h) l w =
      let p' = pack_node s remap (suc r) id p in
      let a = pack_node-Placed (suc r) id p (omega arith) (omega arith) in
      let k = write_loop-Packs (suc c) rs (id + 1) p' h (omega arith) (omega (arith, a.width)) in
      with_node c r rs id p z l a k
