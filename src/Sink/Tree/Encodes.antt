-- ===== src/Sink/Tree/Encodes.antt =====
-- The compact tree of a root: its nodes are the nodes that the root reaches, with their edges.
use pawn_parser.Prelude.{
  ltb, true, ℕ, zero, suc, ◌+◌, ◌^◌, ◌≤◌, ◌<◌, ◌≡◌, ◌≢◌, refl, sym, ap, subst, ◌∙◌, ◌↔◌, List, [],
  ◌∷◌, some, arith, ◌==◌, replicate, length, get_or,
}
use pawn_parser.Sink.Nodes.{BuildError, fields_of, error_of, Sink, blank_node, node_at, children_of}
use pawn_parser.Sink.Tree.{
  CompactTree, Packing, mapped, number_from, renumber, node_count, index_of, edges, visit_loop,
  nothing_packed, tree_of, packed, reachable_nodes, tree,
}
use pawn_parser.Sink.Tree.Paths.{Among, Reaches, here, there}
use pawn_parser.Sink.Tree.Visit.{Visited, Visited-from_root}
use pawn_parser.Sink.Tree.Numbers.{
  number_from-Numbered, length-number_from, number_from-same, Numbered-within, Numbered-distinct,
  Numbered-all,
}
use pawn_parser.Sink.Tree.Fits.{expected_of, pack_loop-write_loop}
use pawn_parser.Sink.Tree.Packs.{Packs, Packed, write_loop, write_loop-Packs}
use pawn_parser.Sink.Tree.Reads.{
  Keeps, kept_fields-Keeps, unlinked, Encodes, get_or-slice, length-slice, node_count_le,
  predecessor, positive, child_indices_in, field_entries_in,
}

module _ (s : Sink) (root : ℕ)
    (within : (id c : ℕ) → Among c (children_of s id) → (0 < c) × (c < length s.records)) where
  abbrev Found : List ℕ → Type 0
  Found = Visited (children_of s) root (length s.records) within

  renumber-same : (r : List ℕ) (id : ℕ) → (mapped (renumber r) id == 0) ≡ (mapped r id == 0)
  unfolding renumber
  renumber-same [] id = refl
  renumber-same (r ∷ rs) zero = refl
  renumber-same (r ∷ rs) (suc id) = number_from-same 0 rs id

  numbered_iff : (r : List ℕ) (id : ℕ) → (mapped (renumber r) id ≢ 0) ↔ (mapped r id ≢ 0)
  numbered_iff r id = same (mapped (renumber r) id) (mapped r id) (renumber-same r id)
    where
      same : (x y : ℕ) → (x == 0) ≡ (y == 0) → (x ≢ 0) ↔ (y ≢ 0)
      same x y e = (λ h z. h (ground arith), λ h z. h (ground arith))

  marks-Reaches :
      (r : List ℕ) (id : ℕ) → Found r → (mapped r id ≢ 0) ↔ Reaches (children_of s) root id
  marks-Reaches r id v = (v.marked_reached id, marked id)
    where
      marked : (id : ℕ) → Reaches (children_of s) root id → mapped r id ≢ 0
      marked id here = v.starts
      marked _ (there {id = k} c h m) = v.followed k c (marked k h) m

  module _ (rs : List ℕ) (v : Found (0 ∷ rs)) (small : length s.records < 2 ^ 32) where
    abbrev remap : List ℕ
    remap = 0 ∷ number_from 0 rs

    abbrev result : Packing
    result = write_loop s remap (number_from 0 rs) 1 (nothing_packed s remap)

    packs : Packs s remap 0 (number_from 0 rs) 1 (nothing_packed s remap) result
    packs =
        write_loop-Packs s remap 0 (number_from 0 rs) 1 _ (number_from-Numbered 0 rs) (omega arith)
          (omega (arith, v.width, length-number_from 0 rs))

    -- A node that is mapped to `suc i` is the node `i` of the tree.
    record Stands (id i : ℕ) : Type 0 where
      inside : i < node_count remap
      below : i < 2 ^ 32
      packed_node : Packed s remap result (suc i) id (node_at s id)

    stands : (id i : ℕ) → mapped remap id ≡ suc i → Stands id i
    unfolding node_count
    stands zero i e = absurd (omega (arith, e))
    stands (suc j) i e =
        let (_, a, _) = Numbered-within 0 (number_from 0 rs) j i (number_from-Numbered 0 rs) e in
        let l = node_count_le (number_from 0 rs) in
        record {
          inside = omega (arith, a);
          below = omega (arith, a, l, v.width, length-number_from 0 rs);
          packed_node =
              subst (λ n. Packed s remap result (suc i) n (node_at s n)) (omega arith)
                (packs.packed_all j i e);
        }

    Stands-index : (id : ℕ) → mapped remap id ≢ 0 → Stands id (index_of remap id)
    Stands-index id h =
        let (i, e) = positive (mapped remap id) h in
        let t = stands id i e in
        subst (Stands id) (sym (predecessor (mapped remap id) i e t.below)) t

    index_is : (id : ℕ) → mapped remap id ≢ 0 → mapped remap id ≡ suc (index_of remap id)
    index_is id h =
        let (i, e) = positive (mapped remap id) h in
        e ∙ ap suc (sym (predecessor (mapped remap id) i e (stands id i e).below))

    count_fits : node_count remap + 1 ≤ length result.records
    unfolding node_count
    count_fits =
        omega
          (arith, node_count_le (number_from 0 rs), length-number_from 0 rs, v.width, packs.width)

    abbrev the_tree : CompactTree
    the_tree = tree_of s remap root result

    node_there :
        (id : ℕ) (h : mapped remap id ≢ 0)
        → get_or the_tree.nodes (index_of remap id) blank_node
          ≡ get_or result.records (suc (index_of remap id)) blank_node
    unfolding tree_of
    node_there id h =
        get_or-slice (node_count remap) (index_of remap id) result.records blank_node
          (Stands-index id h).inside

    length-nodes : length the_tree.nodes ≡ node_count remap
    unfolding tree_of
    length-nodes = length-slice (node_count remap) result.records count_fits

    counted_in : (i : ℕ) → i < length the_tree.nodes → i < 0 + node_count (number_from 0 rs)
    unfolding node_count
    counted_in i h = omega (arith, length-nodes, h)

    packed-Encodes : Encodes s root remap the_tree
    unfolding tree_of renumber
    packed-Encodes = record {
      reached = λ id.
          let (f, g) = numbered_iff (0 ∷ rs) id in
          let (f', g') = marks-Reaches (0 ∷ rs) id v in (λ h. f' (f h), λ h. g (g' h));
      root_is = index_is root (numbered v.starts);
      distinct =
          λ id k h e. let (i, p) = positive (mapped remap id) h in same_id id k i p (sym e ∙ p);
      index_is = index_is;
      every = every_node;
      counted = within_nodes;
      node_is = λ id h. ap unlinked (node_there id h ∙ (Stands-index id h).packed_node.stands);
      children_are = λ id h.
          let n = (Stands-index id h).packed_node in
          child_indices_in the_tree (index_of remap id) (within_nodes id h) _
            (node_there id h ∙ n.stands)
          ∙ n.children_slice;
      fields_are = λ id h.
          let n = (Stands-index id h).packed_node in
          subst (Keeps remap (fields_of s id))
            (sym (
              field_entries_in the_tree (index_of remap id) (within_nodes id h) _
                (node_there id h ∙ n.stands)
              ∙ n.fields_slice))
            (kept_fields-Keeps remap (fields_of s id) index_is);
    }
      where
        numbered : mapped (0 ∷ rs) root ≢ 0 → mapped remap root ≢ 0
        numbered h = (numbered_iff (0 ∷ rs) root).1 h

        within_nodes : (id : ℕ) → mapped remap id ≢ 0 → index_of remap id < length the_tree.nodes
        within_nodes id h = omega (arith, length-nodes, (Stands-index id h).inside)

        every_node :
            (i : ℕ)
            → i < length the_tree.nodes
            → (id : ℕ) × (mapped remap id ≢ 0) × (index_of remap id ≡ i)
        every_node i h =
            let (j, e) =
              Numbered-all 0 (number_from 0 rs) i (number_from-Numbered 0 rs) (omega arith)
                (counted_in i h) in
            (
              suc j,
              λ z. absurd (omega (arith, e, z)),
              predecessor (mapped remap (suc j)) i e (stands (suc j) i e).below,
            )

        same_id : (id k i : ℕ) → mapped remap id ≡ suc i → mapped remap k ≡ suc i → id ≡ k
        same_id zero k i e f = absurd (omega (arith, e))
        same_id (suc id) zero i e f = absurd (omega (arith, f))
        same_id (suc id) (suc k) i e f =
            ap suc (Numbered-distinct 0 (number_from 0 rs) id k i (number_from-Numbered 0 rs) e f)

  -- All the rounds succeed.
  packed-tree_of :
      (rs : List ℕ)
      → Found (0 ∷ rs)
      → edges (children_of s) (length s.records) < 2 ^ 32
      → edges (fields_of s) (length s.records) < 2 ^ 32
      → edges (expected_of s) (length s.records) < 2 ^ 32
      → ((id : ℕ) (e : BuildError) → error_of s id ≡ some e → e.offset < 2 ^ 32)
      → packed s (0 ∷ number_from 0 rs) root
        ≡ some (
            tree_of s (0 ∷ number_from 0 rs) root (
              write_loop s
                (0 ∷ number_from 0 rs)
                (number_from 0 rs)
                1
                (nothing_packed s (0 ∷ number_from 0 rs))))
  unfolding packed
  packed-tree_of rs v a b c d =
      let w : length (0 ∷ number_from 0 rs) ≡ length s.records =
        omega (arith, v.width, length-number_from 0 rs) in
      rw
        (
          (pack_loop-write_loop s (0 ∷ number_from 0 rs) a b c d w within 0 (number_from 0 rs) 1
              (nothing_packed s (0 ∷ number_from 0 rs)) (number_from-Numbered 0 rs) (omega arith)
              (omega (arith, w)) refl
              (record {
                few_children = omega arith;
                few_fields = omega arith;
                few_expected = omega arith;
              })),
          packed,
        )
        refl

-- For a root within a sink whose nodes have children within it, and in which the numbers of nodes, of
-- children, of fields and of expected kinds, and the offset of each error are below 2 ^ 32, `tree`
-- does not panic and ends. The nodes of its result are the nodes that the root reaches, each once and
-- no others, each with what it is apart from its edges, its children in their order, and those of its
-- fields whose nodes are reached.
pub tree-Encodes :
    (s : Sink) (root : ℕ)
    → 0 < root
    → root < length s.records
    → length s.records < 2 ^ 32
    → ((id c : ℕ) → Among c (children_of s id) → (0 < c) × (c < length s.records))
    → edges (children_of s) (length s.records) < 2 ^ 32
    → edges (fields_of s) (length s.records) < 2 ^ 32
    → edges (expected_of s) (length s.records) < 2 ^ 32
    → ((id : ℕ) (e : BuildError) → error_of s id ≡ some e → e.offset < 2 ^ 32)
    → (remap : List ℕ) × (t : CompactTree) × (tree s root ≡ some t) × Encodes s root remap t
unfolding tree reachable_nodes renumber
tree-Encodes s zero a b small within kids fields expected offsets = absurd (omega arith)
tree-Encodes s (suc n) a b small within kids fields expected offsets =
    let (r, e, v) = Visited-from_root (children_of s) (suc n) (length s.records) within a b in
    from_visited r e v
  where
    from_visited :
        (r : List ℕ)
        → visit_loop
            (children_of s)
            (edges (children_of s) (length s.records) + 1)
            (replicate (length s.records) 0)
            (suc n ∷ [])
          ≡ some r
        → Visited (children_of s) (suc n) (length s.records) within r
        → (remap : List ℕ) × (t : CompactTree) × (tree s (suc n) ≡ some t)
          × Encodes s (suc n) remap t
    from_visited [] e v = absurd (omega (arith, v.width))
    from_visited (suc k ∷ rs) e v = absurd (omega (arith, v.zero_free))
    from_visited (zero ∷ rs) e v =
        let f : ltb (length s.records) (2 ^ 32) ≡ true = ground arith in
        (
          0 ∷ number_from 0 rs,
          _,
          rw (f, e, tree, reachable_nodes)
              (packed-tree_of s (suc n) within rs v kids fields expected offsets),
          packed-Encodes s (suc n) within rs v small,
        )
