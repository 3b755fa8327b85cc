-- ===== src/Sink/Tree/Fits.antt =====
-- The rounds of `tree` do not panic when the numbers of all edges fit into 32 bits.
use pawn_parser.Prelude.{
  ℕ, zero, suc, ◌+◌, ◌^◌, ◌≤◌, ◌<◌, ◌≡◌, refl, ap, ◌∙◌, inl, inr, ◌⊎◌, true, ◌||◌, List, [], ◌∷◌,
  Option, none, some, arith, leb, ltb, ◌==◌, if_cases, length, length-append,
}
use pawn_parser.Token.Kind.{Kind}
use pawn_parser.Sink.Nodes.{BuildError, BuildField, Sink, children_of, fields_of, error_of}
use pawn_parser.Sink.Tree.{
  CompactField, Packing, mapped, edges, kept_fields, kids_indices, fields_indices, add_error,
  pack_node, error_fits, all_mapped, node_fits, pack_loop,
}
use pawn_parser.Sink.Tree.Paths.{Among}
use pawn_parser.Sink.Tree.Packs.{pack_node-Placed, write_loop, length-kids}
use pawn_parser.Sink.Tree.Numbers.{Numbered}

-- The kinds that a node's error expects.
abbrev pub expected_in : Option BuildError → List Kind
expected_in none = []
expected_in (some e) = e.expected

abbrev pub expected_of : Sink → ℕ → List Kind
expected_of s id = expected_in (error_of s id)

-- The lists of the first nodes have no more elements than those of all.
edges_next :
    {A : Type 0} (kids : ℕ → List A) (id n : ℕ)
    → id < n
    → edges kids id + length (kids id) ≤ edges kids n
unfolding edges
edges_next kids id zero h = absurd (omega arith)
edges_next kids id (suc n) h = elim (same_or_less id n h) [
  | inl e ↦ let f = ap (edges kids) e in let g = ap (λ k. length (kids k)) e in omega (arith, f, g)
  | inr l ↦ omega (arith, edges_next kids id n l)
]
  where
    same_or_less : (a b : ℕ) → a < suc b → (a ≡ b) ⊎ (a < b)
    same_or_less a b h = ground arith

edges_suc :
    {A : Type 0} (kids : ℕ → List A) (id : ℕ)
    → edges kids (id + 1) ≡ edges kids id + length (kids id)
unfolding edges
edges_suc kids id = ap (edges kids) (let e : id + 1 ≡ suc id = omega arith in e)

module _ (s : Sink) (remap : List ℕ)
    (children_fit : edges (children_of s) (length s.records) < 2 ^ 32)
    (fields_fit : edges (fields_of s) (length s.records) < 2 ^ 32)
    (expected_fit : edges (expected_of s) (length s.records) < 2 ^ 32)
    (offsets_fit : (id : ℕ) (e : BuildError) → error_of s id ≡ some e → e.offset < 2 ^ 32)
    (width : length remap ≡ length s.records)
    (within : (id c : ℕ) → Among c (children_of s id) → (0 < c) × (c < length s.records)) where
  kept_le : (es : List BuildField) → length (kept_fields remap es) ≤ length es
  unfolding kept_fields
  kept_le [] = omega arith
  kept_le (e ∷ es) =
      if_cases (λ (xs : List CompactField). length xs ≤ length (e ∷ es))
        (leb (length remap) e.node || mapped remap e.node == 0) _ _ (λ _. omega (arith, kept_le es))
        (λ _. omega (arith, kept_le es))

  -- What has been packed before the node `id`.
  pub record Before (id : ℕ) (p : Packing) : Type 0 where
    pub few_children : length p.children ≤ edges (children_of s) id
    pub few_fields : length p.fields ≤ edges (fields_of s) id
    pub few_expected : length p.expected ≤ edges (expected_of s) id

  skipped : (id : ℕ) (p : Packing) → Before id p → Before (id + 1) p
  skipped id p b = record {
    few_children = omega (arith, b.few_children, edges_suc (children_of s) id);
    few_fields = omega (arith, b.few_fields, edges_suc (fields_of s) id);
    few_expected = omega (arith, b.few_expected, edges_suc (expected_of s) id);
  }

  expected_added :
      (index : ℕ) (o : Option BuildError) (p : Packing)
      → length (add_error s remap index o p).expected ≡ length p.expected + length (expected_in o)
  unfolding add_error
  expected_added index none p = omega arith
  expected_added index (some e) p = length-append p.expected e.expected

  expected_packed :
      (place id : ℕ) (p : Packing)
      → length (pack_node s remap place id p).expected
        ≡ length p.expected + length (expected_of s id)
  unfolding pack_node
  expected_packed place id p = expected_added _ (error_of s id) _

  stepped :
      (place id : ℕ) (p : Packing)
      → place ≤ id
      → id < length p.records
      → Before id p
      → Before (id + 1) (pack_node s remap place id p)
  stepped place id p l h b =
      let a = pack_node-Placed s remap place id p l h in
      record {
        few_children = omega (
          arith,
          b.few_children,
          edges_suc (children_of s) id,
          ap length a.children_are,
          length-append p.children (kids_indices s remap id),
          length-kids s remap id,
        );
        few_fields = omega (
          arith,
          b.few_fields,
          edges_suc (fields_of s) id,
          ap length a.fields_are,
          length-append p.fields (fields_indices s remap id),
          kept_le (fields_of s id),
        );
        few_expected =
            omega (arith, b.few_expected, edges_suc (expected_of s) id, expected_packed place id p);
      }

  all_mapped_lem :
      (cs : List ℕ) → ((c : ℕ) → Among c cs → c < length remap) → all_mapped s remap cs ≡ true
  unfolding all_mapped
  all_mapped_lem [] h = refl
  all_mapped_lem (c ∷ cs) h =
      let a : c < length remap = h c (inl refl) in
      let b = all_mapped_lem cs (λ d m. h d (inr m)) in ground arith

  error_fits_lem :
      (p : Packing) (o : Option BuildError)
      → length p.expected < 2 ^ 32
      → ((e : BuildError) → o ≡ some e → e.offset < 2 ^ 32)
      → length (expected_in o) < 2 ^ 32
      → error_fits s remap p o ≡ true
  unfolding error_fits
  error_fits_lem p none a b c = refl
  error_fits_lem p (some e) a b c = let d = b e refl in ground arith

  node_fits_lem :
      (id : ℕ) (p : Packing) → id < length s.records → Before id p → node_fits s remap p id ≡ true
  unfolding node_fits
  node_fits_lem id p h b =
      let m = all_mapped_lem (children_of s id) (λ c a. omega (arith, (within id c a).1, width)) in
      let k = edges_next (children_of s) id (length s.records) h in
      let f = edges_next (fields_of s) id (length s.records) h in
      let x = edges_next (expected_of s) id (length s.records) h in
      let e =
        error_fits_lem p (error_of s id) (omega (arith, x, b.few_expected)) (offsets_fit id)
          (omega (arith, x)) in
      rw
        (
          m,
          fit (length p.children) (omega (arith, k, b.few_children)),
          fit (length (children_of s id)) (omega (arith, k)),
          fit (length p.fields) (omega (arith, f, b.few_fields)),
          fit (length p.fields + length (fields_indices s remap id))
              (omega (arith, f, b.few_fields, kept_le (fields_of s id))),
          e,
        )
        refl
    where
      fit : (n : ℕ) → n < 2 ^ 32 → ltb n (2 ^ 32) ≡ true
      fit n h = ground arith

  pub pack_loop-write_loop :
      (c : ℕ) (rs : List ℕ) (id : ℕ) (p : Packing)
      → Numbered c rs
      → c < id
      → id + length rs ≤ length p.records
      → length p.records ≡ length s.records
      → Before id p
      → pack_loop s remap rs id p ≡ some (write_loop s remap rs id p)
  unfolding pack_loop write_loop
  pack_loop-write_loop c [] id p n l w e b = refl
  pack_loop-write_loop c (zero ∷ rs) id p n l w e b =
      pack_loop-write_loop c rs (id + 1) p n (omega arith) (omega arith) e (skipped id p b)
  pack_loop-write_loop c (suc r ∷ rs) id p (z, n) l w e b =
      let f = node_fits_lem id p (omega (arith, e, w)) b in
      let a = pack_node-Placed s remap (suc r) id p (omega arith) (omega arith) in
      rw (f, pack_loop)
        (pack_loop-write_loop (suc c) rs (id + 1) (pack_node s remap (suc r) id p) n (omega arith)
          (omega (arith, a.width)) (a.width ∙ e)
          (stepped (suc r) id p (omega arith) (omega arith) b))
