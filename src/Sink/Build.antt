-- ===== src/Sink/Build.antt =====
-- compact_sink.go: the operations of `nodeSink` that build nodes, and the marks that go back.
pub mod Columns
pub mod Tables
pub mod Values
pub mod Ahead
pub mod Rewinds
pub mod Adds
use pawn_parser.Prelude.{
  ℕ, ◌+◌, ◌-◌, Bool, true, false, not, ◌&&◌, List, [], ◌∷◌, ◌++◌, ◌==◌, if◌then◌else◌, length, set,
  take,
}
use pawn_parser.Token.Kind.{Kind, kind_eq}
use pawn_parser.Sink.Links.{Links, items, push}
use pawn_parser.Sink.Sparse.{Sparse, lookup, update}
use pawn_parser.Sink.Nodes.{
  CompactNode, BuildError, NodeTrivia, BuildField, Sink, blank_node, blank_error, blank_trivia,
  blank_field, node_at, children_of, fields_of, trivia_of,
}
use pawn_parser.Sink.Links.{slot_at, owned, put}
use pawn_parser.Token.Types.{Token}

-- `SetKind`, `SetStart`, `SetEnd`, `SetHasError` and the others that write to a record.
abbrev pub set_node : ℕ → (CompactNode → CompactNode) → Sink → Sink
set_node n f s = record s { records = set s.records n (f (node_at s n)) }

-- `SetLeading` and `SetTrailing`, when trivia is retained.
unfoldable pub set_trivia : ℕ → (NodeTrivia → NodeTrivia) → Sink → Sink
unfolding update
set_trivia n f s =
    if s.retain_trivia then record s { trivia = update blank_trivia n f s.trivia } else s

-- A `Node` as `Store` takes it, with a record that has no children or fields.
pub record NodeValue : Type 0 where
  pub base : CompactNode
  pub trivia : NodeTrivia
  pub error : BuildError

abbrev pub is_empty : {A : Type 0} → List A → Bool
is_empty [] = true
is_empty (x ∷ xs) = false

abbrev pub is_blank_error : BuildError → Bool
is_blank_error e =
    is_empty e.message && is_empty e.expected && e.offset == 0 && kind_eq e.found Kind.invalid

abbrev pub no_trivia : NodeTrivia → Bool
no_trivia t = is_empty t.leading && is_empty t.trailing

-- A new node with a record only.
abbrev pub with_record : CompactNode → Sink → Sink
with_record base s = record s {
  records = s.records ++ (base ∷ []);
  children = record s.children { owner = s.children.owner ++ (0 ∷ []) };
  fields = record s.fields { owner = s.fields.owner ++ (0 ∷ []) };
  errors = record s.errors { ids = s.errors.ids ++ (0 ∷ []) };
  trivia = record s.trivia { ids = s.trivia.ids ++ (0 ∷ []) };
}

-- A new node with its trivia, if it has any and trivia is retained.
unfoldable pub with_trivia : NodeValue → Sink → Sink
unfolding update
with_trivia v s =
    let made = with_record v.base s in
    if s.retain_trivia && not (no_trivia v.trivia)
    then record made { trivia = update blank_trivia (length s.records) (λ _. v.trivia) made.trivia }
    else made

-- `Store`: a new node, its number, and its trivia and error if it has any.
unfoldable pub store : NodeValue → Sink → ℕ × Sink
unfolding with_trivia update kind_eq
store v s =
    let made = with_trivia v s in
    (
      length s.records,
      if is_blank_error v.error then made else record made {
        errors = update blank_error (length s.records) (λ _. v.error) made.errors;
      },
    )

-- The end of a node and its trailing trivia are those of a child.
unfoldable pub end_with : ℕ → ℕ → Sink → Sink
unfolding set_trivia lookup
end_with n child s =
    let ended = set_node n (λ r. record r { end = (node_at s child).end }) s in
    set_trivia n (λ t. record t { trailing = (trivia_of ended child).trailing }) ended

-- `AddChild`: the node ends where the child ends, and has an error if the child has.
unfoldable pub add_child : ℕ → ℕ → Sink → Sink
unfolding push end_with
add_child n child s =
    if child == 0
    then s
    else let linked : Sink = record s {
      children = push 0 n child s.children;
      edge_count = s.edge_count + 1;
    } in
      let trailed = end_with n child linked in
      if (node_at trailed child).has_error
      then set_node n (λ r. record r { has_error = true }) trailed
      else trailed

unfoldable pub find_field : List BuildField → ℕ → ℕ
find_field [] id = 0
find_field (entry ∷ entries) id =
    let rest = find_field entries id in if entry.id == id then entry.node else rest

-- `Field`
unfoldable pub field : Sink → ℕ → ℕ → ℕ
unfolding items find_field
field s n id = find_field (fields_of s n) id

-- `SetField`
unfoldable pub set_field : ℕ → ℕ → ℕ → Sink → Sink
unfolding push
set_field n id child s = if child == 0 then s else record s {
  fields = push blank_field n (record { id = id; node = child }) s.fields;
  field_count = s.field_count + 1;
}

-- The last of a list of children, or 0.
unfoldable pub last_child : List ℕ → ℕ
last_child [] = 0
last_child (c ∷ []) = c
last_child (c ∷ d ∷ cs) = last_child (d ∷ cs)

-- `SetChildren`; the number of edges grows by the children that are new.
unfoldable pub set_children : ℕ → List ℕ → Sink → Sink
unfolding put last_child end_with
set_children n cs s =
    let linked : Sink = record s {
      children = put 0 n cs s.children;
      edge_count = s.edge_count + length cs - (slot_at 0 s.children (owned 0 s.children n)).count;
    } in
    if is_empty cs then linked else end_with n (last_child cs) linked

-- `NewLeaf`, for a number of a kind
unfoldable pub new_leaf : ℕ → Token → Sink → ℕ × Sink
unfolding store
new_leaf kind tok s =
    store
      (record {
        base = record blank_node {
          kind = kind;
          start = tok.start.offset;
          end = tok.end.offset;
          token_kind = tok.kind;
          token_start = tok.start.offset;
          token_end = tok.end.offset;
        };
        trivia = record { leading = tok.leading_trivia; trailing = tok.trailing_trivia };
        error = blank_error;
      })
      s

unfoldable pub add_children : ℕ → List ℕ → Sink → Sink
unfolding add_child
add_children n [] s = s
add_children n (c ∷ cs) s = add_children n cs (add_child n c s)

-- A node starts where its first child starts, with the trivia before it.
unfoldable pub start_with : ℕ → List ℕ → Sink → Sink
unfolding set_trivia lookup
start_with n [] s = s
start_with n (c ∷ cs) s =
    let started = set_node n (λ r. record r { start = (node_at s c).start }) s in
    set_trivia n (λ t. record t { leading = (trivia_of started c).leading }) started

-- `NewNode`
unfoldable pub new_node : ℕ → List ℕ → Sink → ℕ × Sink
unfolding store add_children start_with items
new_node kind cs s =
    let (n, made) =
      store
        (record {
          base = record blank_node { kind = kind };
          trivia = blank_trivia;
          error = blank_error;
        })
        s in
    let linked = add_children n cs made in (n, start_with n (children_of linked n) linked)

-- `sinkMark`, as far as the compact sink uses it outside of its arenas.
pub record SinkMark : Type 0 where
  pub nodes : ℕ
  pub edge_count : ℕ
  pub field_count : ℕ
  pub errors : ℕ
  pub node_trivia : ℕ
  pub node_children : ℕ
  pub child_spills : ℕ
  pub node_fields : ℕ
  pub field_spills : ℕ

-- `Mark`
unfoldable pub mark_of : Sink → SinkMark
mark_of s = record {
  nodes = length s.records;
  edge_count = s.edge_count;
  field_count = s.field_count;
  errors = length s.errors.values;
  node_trivia = length s.trivia.values;
  node_children = length s.children.slots;
  child_spills = length s.children.spills;
  node_fields = length s.fields.slots;
  field_spills = length s.fields.spills;
}

abbrev pub cut_links : {A : Type 0} → ℕ → ℕ → ℕ → Links A → Links A
cut_links nodes slots spills l = record {
  owner = take nodes l.owner;
  slots = take slots l.slots;
  spills = take spills l.spills;
}

abbrev pub cut_sparse : {T : Type 0} → ℕ → ℕ → Sparse T → Sparse T
cut_sparse nodes values t = record { ids = take nodes t.ids; values = take values t.values }

-- `Rewind`
unfoldable pub rewind : SinkMark → Sink → Sink
rewind m s = record s {
  records = take m.nodes s.records;
  edge_count = m.edge_count;
  field_count = m.field_count;
  children = cut_links m.nodes m.node_children m.child_spills s.children;
  fields = cut_links m.nodes m.node_fields m.field_spills s.fields;
  errors = cut_sparse m.nodes m.errors s.errors;
  trivia = cut_sparse m.nodes m.node_trivia s.trivia;
}
