-- ===== src/Sink/Tree.antt =====
-- compact_sink.go: `tree`, which packs the nodes that a root reaches into a compact tree, in the records'
-- own list; and the reading of such a tree in compact.go.
pub mod Paths
pub mod Visit
pub mod Numbers
pub mod Packs
pub mod Fits
pub mod Reads
pub mod Encodes
use pawn_parser.Prelude.{
  ℕ, zero, suc, ◌+◌, ◌-◌, ◌%◌, ◌^◌, Bool, true, false, not, ◌&&◌, ◌||◌, List, [], ◌∷◌, ◌++◌, Bytes,
  Option, none, some, ltb, leb, ◌==◌, if◌then◌else◌, length, get_or, set, slice, replicate, map,
}
use pawn_parser.Token.Kind.{Kind}
use pawn_parser.Sink.Nodes.{
  CompactNode, BuildError, BuildField, Sink, blank_node, node_at, children_of, fields_of, error_of,
}

-- `CompactField`, `CompactError` and `CompactTree` of compact.go
pub record CompactField : Type 0 where
  pub id : ℕ
  pub node : ℕ

pub record CompactError : Type 0 where
  pub message : Bytes
  pub node : ℕ
  pub offset : ℕ
  pub found : Kind
  pub expected_start : ℕ
  pub expected_count : ℕ

pub record CompactTree : Type 0 where
  pub nodes : List CompactNode
  pub children : List ℕ
  pub fields : List CompactField
  pub errors : List CompactError
  pub expected : List Kind
  pub root : ℕ

-- `^uint32(0)`
abbrev pub mark : ℕ
mark = 2 ^ 32 - 1

-- `append(stack, children...)`; the top of the stack is first here.
unfoldable pub push_all : List ℕ → List ℕ → List ℕ
push_all [] stack = stack
push_all (c ∷ cs) stack = push_all cs (c ∷ stack)

-- What a node's number is mapped to; 0 for a node that is not reached.
abbrev pub mapped : List ℕ → ℕ → ℕ
mapped remap id = get_or remap id 0

-- `id == 0 || id >= len(remap) || remap[id] != 0`
abbrev pub passes_over : List ℕ → ℕ → Bool
passes_over remap id = id == 0 || leb (length remap) id || not (mapped remap id == 0)

-- How many elements the lists of the first nodes have.
unfoldable pub edges : {A : Type 0} → (ℕ → List A) → ℕ → ℕ
edges kids zero = 0
edges kids (suc n) = edges kids n + length (kids n)

-- The first loop of `reachableNodes`, with a round for the root and one for each edge.
unfoldable pub visit_loop : (ℕ → List ℕ) → ℕ → List ℕ → List ℕ → Option (List ℕ)
unfolding push_all
visit_loop kids fuel remap [] = some remap
visit_loop kids zero remap (id ∷ stack) = none
visit_loop kids (suc fuel) remap (id ∷ stack) = elim (passes_over remap id) [
  | true ↦ visit_loop kids fuel remap stack
  | false ↦ visit_loop kids fuel (set remap id mark) (push_all (kids id) stack)
]

-- The second loop: the marked nodes are counted from 1.
unfoldable pub number_from : ℕ → List ℕ → List ℕ
number_from count [] = []
number_from count (zero ∷ remap) = 0 ∷ number_from count remap
number_from count (suc r ∷ remap) = suc count ∷ number_from (suc count) remap

unfoldable pub renumber : List ℕ → List ℕ
unfolding number_from
renumber [] = []
renumber (r ∷ remap) = r ∷ number_from 0 remap

unfoldable pub node_count : List ℕ → ℕ
node_count [] = 0
node_count (zero ∷ remap) = node_count remap
node_count (suc r ∷ remap) = suc (node_count remap)

-- The entries from the number 1 on.
abbrev pub places : List ℕ → List ℕ
places [] = []
places (r ∷ remap) = remap

-- `remap[child] - 1` on 32 bits
abbrev pub index_of : List ℕ → ℕ → ℕ
index_of remap id = (mapped remap id + (2 ^ 32 - 1)) % 2 ^ 32

-- The entries of fields whose nodes are reached.
unfoldable pub kept_fields : List ℕ → List BuildField → List CompactField
kept_fields remap [] = []
kept_fields remap (entry ∷ entries) =
    let rest = kept_fields remap entries in
    if leb (length remap) entry.node || mapped remap entry.node == 0
    then rest
    else record { id = entry.id; node = index_of remap entry.node } ∷ rest

-- The variables of the loop of `tree`. The source writes children and fields into lists that it has
-- made as long as they get; here each list is what has been written.
pub record Packing : Type 0 where
  pub records : List CompactNode
  pub children : List ℕ
  pub fields : List CompactField
  pub errors : List CompactError
  pub expected : List Kind

module _ (s : Sink) (remap : List ℕ) where
  abbrev pub kids_indices : ℕ → List ℕ
  kids_indices id = map (index_of remap) (children_of s id)

  abbrev pub fields_indices : ℕ → List CompactField
  fields_indices id = kept_fields remap (fields_of s id)

  -- `if index+1 != id { tree.Nodes[index] = s.builder.records[id] }`
  abbrev moved : ℕ → ℕ → List CompactNode → List CompactNode
  moved place id records =
      if place == id then records else set records place (get_or records id blank_node)

  abbrev pub linked : Packing → ℕ → CompactNode → CompactNode
  linked p id r = record r {
    child_start = length p.children;
    child_count = length (children_of s id);
    field_start = length p.fields;
    field_count = length (fields_indices id);
  }

  unfoldable pub add_error : ℕ → Option BuildError → Packing → Packing
  add_error index none p = p
  add_error index (some e) p = record p {
    expected = p.expected ++ e.expected;
    errors =
        p.errors
        ++ (record {
          message = e.message;
          node = index;
          offset = e.offset;
          found = e.found;
          expected_start = length p.expected;
          expected_count = length e.expected;
        }
            ∷ []);
  }

  -- A round for a node that is reached, whose place in the records is `place`.
  unfoldable pub pack_node : ℕ → ℕ → Packing → Packing
  unfolding add_error
  pack_node place id p =
      let records = moved place id p.records in
      add_error (place - 1) (error_of s id) (record p {
        records = set records place (linked p id (get_or records place blank_node));
        children = p.children ++ kids_indices id;
        fields = p.fields ++ fields_indices id;
      })

  -- What `compactUint` takes without a panic.
  abbrev pub fits_uint32 : ℕ → Bool
  fits_uint32 n = ltb n (2 ^ 32)

  unfoldable pub error_fits : Packing → Option BuildError → Bool
  error_fits p none = true
  error_fits p (some e) =
      fits_uint32 (length p.expected) && fits_uint32 e.offset && fits_uint32 (length e.expected)

  -- Whether each child has an entry in `remap`.
  unfoldable pub all_mapped : List ℕ → Bool
  all_mapped [] = true
  all_mapped (c ∷ cs) = ltb c (length remap) && all_mapped cs

  -- A round does not panic: its numbers fit, and its children are in range.
  unfoldable pub node_fits : Packing → ℕ → Bool
  unfolding error_fits all_mapped
  node_fits p id =
      all_mapped (children_of s id)
      && fits_uint32 (length p.children)
      && fits_uint32 (length (children_of s id))
      && fits_uint32 (length p.fields)
      && fits_uint32 (length p.fields + length (fields_indices id))
      && error_fits p (error_of s id)

  -- The rounds from the number `id` on, for the places that are left of `remap`.
  unfoldable pub pack_loop : List ℕ → ℕ → Packing → Option Packing
  unfolding pack_node node_fits
  pack_loop [] id p = some p
  pack_loop (zero ∷ rest) id p = pack_loop rest (id + 1) p
  pack_loop (suc index ∷ rest) id p = elim (node_fits p id) [
    | false ↦ none
    | true ↦ pack_loop rest (id + 1) (pack_node (suc index) id p)
  ]

  abbrev pub nothing_packed : Packing
  nothing_packed = record {
    records = s.records;
    children = [];
    fields = [];
    errors = [];
    expected = [];
  }

  -- The tree of what has been packed.
  unfoldable pub tree_of : ℕ → Packing → CompactTree
  unfolding node_count
  tree_of root p = record {
    nodes = slice p.records 1 (node_count remap + 1);
    children = p.children;
    fields = p.fields;
    errors = p.errors;
    expected = p.expected;
    root = index_of remap root;
  }

  -- `tree` behind `reachableNodes`
  unfoldable pub packed : ℕ → Option CompactTree
  unfolding pack_loop tree_of
  packed root = elim (pack_loop (places remap) 1 nothing_packed) [
    | none ↦ none
    | some p ↦ some (tree_of root p)
  ]

module _ (s : Sink) where
  -- The number of nodes has to fit into 32 bits.
  unfoldable pub reachable_nodes : ℕ → Option (List ℕ)
  unfolding visit_loop renumber edges
  reachable_nodes root = elim (ltb (length s.records) (2 ^ 32)) [
    | false ↦ none
    | true ↦
        elim (visit_loop (children_of s) (edges (children_of s) (length s.records) + 1)
          (replicate (length s.records) 0) (root ∷ [])) [
            | none ↦ none
            | some remap ↦ some (renumber remap)
          ]
  ]

  abbrev pub no_tree : CompactTree
  no_tree = record { nodes = []; children = []; fields = []; errors = []; expected = []; root = 0 }

  -- `tree`
  unfoldable pub tree : ℕ → Option CompactTree
  unfolding reachable_nodes packed
  tree zero = some no_tree
  tree (suc n) = elim (reachable_nodes (suc n)) [
    | none ↦ none
    | some remap ↦ packed s remap (suc n)
  ]

-- `ChildIndices` of compact.go, and the entries that its `Field` looks through.
abbrev pub child_indices : CompactTree → ℕ → List ℕ
child_indices t i =
    let n = get_or t.nodes i blank_node in
    if leb (length t.nodes) i
    then []
    else slice t.children n.child_start (n.child_start + n.child_count)

abbrev pub field_entries : CompactTree → ℕ → List CompactField
field_entries t i =
    let n = get_or t.nodes i blank_node in
    if leb (length t.nodes) i
    then []
    else slice t.fields n.field_start (n.field_start + n.field_count)
