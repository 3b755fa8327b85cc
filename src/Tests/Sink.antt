-- ===== src/Tests/Sink.antt =====
-- The compact sink, its tree and its rebase at concrete inputs.
use pawn_parser.Prelude.{
  ◌+◌, ◌-◌, ◌^◌, ◌++◌, Bytes, codes, slice, take, drop, ℕ, zero, suc, ◌<◌, ◌≡◌, refl, inl, inr,
  true, List, [], ◌∷◌, some, arith, length,
}
use pawn_parser.Sink.Links.{blank_slot, items, slot_items}
use pawn_parser.Sink.Nodes.{
  CompactNode, Sink, blank_node, blank_error, blank_trivia, new_sink, children_of, fields_of,
  error_of, BuildError,
}
use pawn_parser.Sink.Build.{NodeValue, store, add_child, mark_of, rewind}
use pawn_parser.Tests.Patterns.{links}
use pawn_parser.Sink.Build.Rewinds.{Steps, first, none_more, stored, child_added, rewind-mark_of}
use pawn_parser.Sink.Tree.{CompactTree, tree, edges, kept_fields}
use pawn_parser.Sink.Tree.Fits.{expected_of}
use pawn_parser.Sink.Sparse.{lookup}
use pawn_parser.Sink.Tree.Paths.{Among}
use pawn_parser.Sink.Tree.Reads.{Encodes}
use pawn_parser.Sink.Tree.Encodes.{tree-Encodes}
use pawn_parser.Rebase.Texts.{old_source, new_source, ShiftsTo, shifted-same, shifted-replaced}

abbrev node : ℕ → CompactNode
node kind = record blank_node { kind = kind }

-- The node 3 has the child 2, and no path leads to the node 1.
abbrev small : Sink
small = record (new_sink true) {
  records = blank_node ∷ node 1 ∷ node 2 ∷ node 3 ∷ [];
  children = record {
    owner = 0 ∷ 0 ∷ 0 ∷ 1 ∷ [];
    slots = blank_slot 0 ∷ record { first = 2; second = 0; count = 1; spill = 0 } ∷ [];
    spills = [] ∷ [];
  };
  fields = record (new_sink true).fields { owner = 0 ∷ 0 ∷ 0 ∷ 0 ∷ [] };
  errors = record (new_sink true).errors { ids = 0 ∷ 0 ∷ 0 ∷ 0 ∷ [] };
}

abbrev small_tree : CompactTree
small_tree = record {
  nodes = node 2 ∷ record (node 3) { child_count = 1 } ∷ [];
  children = 0 ∷ [];
  fields = [];
  errors = [];
  expected = [];
  root = 1;
}

tree_value : tree small 3 ≡ some small_tree
unfolding tree items kept_fields lookup
tree_value = refl

small_within : (id c : ℕ) → Among c (children_of small id) → (0 < c) × (c < length small.records)
unfolding items slot_items
small_within zero c h = absurd h
small_within (suc zero) c h = absurd h
small_within (suc (suc zero)) c h = absurd h
small_within (suc (suc (suc zero))) c (inl e) = (omega arith, omega arith)
small_within (suc (suc (suc zero))) c (inr h) = absurd h
small_within (suc (suc (suc (suc n)))) c h = absurd h

small_kids : edges (children_of small) (length small.records) < 2 ^ 32
unfolding edges items slot_items
small_kids = omega arith

small_fields : edges (fields_of small) (length small.records) < 2 ^ 32
unfolding edges lookup items
small_fields = omega arith

small_expected : edges (expected_of small) (length small.records) < 2 ^ 32
unfolding edges lookup
small_expected = omega arith

small_errors : (id : ℕ) (e : BuildError) → error_of small id ≡ some e → e.offset < 2 ^ 32
unfolding lookup
small_errors zero e h = cc
small_errors (suc zero) e h = cc
small_errors (suc (suc zero)) e h = cc
small_errors (suc (suc (suc zero))) e h = cc
small_errors (suc (suc (suc (suc n)))) e h = cc

tree-Encodes_example :
    (remap : List ℕ) × (t : CompactTree) × (tree small 3 ≡ some t) × Encodes small 3 remap t
tree-Encodes_example =
    tree-Encodes small 3 (omega arith) (omega arith) (omega arith) small_within small_kids
      small_fields small_expected small_errors

abbrev value : NodeValue
value = record { base = node 5; trivia = blank_trivia; error = record blank_error { offset = 9 } }

abbrev start : Sink
start = new_sink true

abbrev grown : Sink
grown = add_child 2 1 (store value (store value start).1).1

grown_children : children_of grown 2 ≡ 1 ∷ []
unfolding items store add_child
grown_children = refl

grown-Steps : Steps (length start.records) start grown
grown-Steps =
    first (stored start value)
      (first (stored _ value) (first (child_added _ 2 1 (omega arith)) (none_more _)))

rewind-mark_of_example : rewind (mark_of start) grown ≡ start
rewind-mark_of_example =
    rewind-mark_of start grown
      (record {
        children_align = refl;
        fields_align = refl;
        errors_align = refl;
        trivia_align = refl;
      })
      grown-Steps

-- The node 1 has two children, and the node 2 has an error.
abbrev pair : Sink
pair = record small {
  records = blank_node ∷ node 1 ∷ record (node 2) { end = 7; has_error = true } ∷ [];
  children = links;
}

-- A comment grows between two tokens.
abbrev pre : Bytes
pre = codes "x = "

abbrev old : Bytes
old = codes "/*a*/"

abbrev new : Bytes
new = codes "/* abc */"

abbrev post : Bytes
post = codes "1;"

fits : length (new_source pre old new post) < 2 ^ 32
fits = omega arith

shifted-same_example :
    ShiftsTo pre old new post fits 9 10 (slice (old_source pre old new post) 9 10)
shifted-same_example =
    shifted-same pre old new post fits 9 10 (omega arith) (omega arith) (inr (omega arith))

shifted-replaced_example :
    (slice (old_source pre old new post) 0 10
      ≡ drop 0 pre ++ (old ++ take (10 - (length pre + length old)) post))
    × ShiftsTo pre old new post fits 0 10
        (drop 0 pre ++ (new ++ take (10 - (length pre + length old)) post))
shifted-replaced_example =
    shifted-replaced pre old new post fits 0 10 (omega arith) (omega arith) (omega arith)
      (omega arith)
