-- ===== src/Sink/Nodes.antt =====
-- compact_sink.go: the nodes of the compact sink, and what can be read from it. Numbers are not bounded
-- here, where `compactUint` panics for one of more than 32 bits. The arenas that hold lists of
-- children, and capacities, have no part in what the operations answer.
use pawn_parser.Prelude.{ℕ, Bool, false, List, [], ◌∷◌, Bytes, Option, none, some, get_or}
use pawn_parser.Token.Kind.{Kind}
use pawn_parser.Token.Types.{Trivia}
use pawn_parser.Sink.Links.{Links, blank_slot, items}
use pawn_parser.Sink.Sparse.{Sparse, lookup}

-- `CompactNode` of compact.go; its kind is the number of the constant in kind.go.
pub record CompactNode : Type 0 where
  pub kind : ℕ
  pub start : ℕ
  pub end : ℕ
  pub token_kind : Kind
  pub token_start : ℕ
  pub token_end : ℕ
  pub child_start : ℕ
  pub child_count : ℕ
  pub field_start : ℕ
  pub field_count : ℕ
  pub has_error : Bool
  pub missing_semi : Bool
  pub has_raw : Bool

-- `compactBuildError`
pub record BuildError : Type 0 where
  pub message : Bytes
  pub expected : List Kind
  pub offset : ℕ
  pub found : Kind

-- `compactBuildTrivia`
pub record NodeTrivia : Type 0 where
  pub leading : List Trivia
  pub trailing : List Trivia

-- `compactBuildField`
pub record BuildField : Type 0 where
  pub id : ℕ
  pub node : ℕ

-- `compactBuilder`
pub record Sink : Type 0 where
  pub records : List CompactNode
  pub edge_count : ℕ
  pub field_count : ℕ
  pub children : Links ℕ
  pub fields : Links BuildField
  pub errors : Sparse BuildError
  pub trivia : Sparse NodeTrivia
  pub retain_trivia : Bool

abbrev pub blank_node : CompactNode
blank_node = record {
  kind = 0;
  start = 0;
  end = 0;
  token_kind = Kind.invalid;
  token_start = 0;
  token_end = 0;
  child_start = 0;
  child_count = 0;
  field_start = 0;
  field_count = 0;
  has_error = false;
  missing_semi = false;
  has_raw = false;
}

abbrev pub blank_error : BuildError
blank_error = record { message = []; expected = []; offset = 0; found = Kind.invalid }

abbrev pub blank_trivia : NodeTrivia
blank_trivia = record { leading = []; trailing = [] }

abbrev pub blank_field : BuildField
blank_field = record { id = 0; node = 0 }

-- `newCompactNodeSink`: each list has a first element that stands for none.
abbrev pub new_sink : Bool → Sink
new_sink retain_trivia = record {
  records = blank_node ∷ [];
  edge_count = 0;
  field_count = 0;
  children = record { owner = 0 ∷ []; slots = blank_slot 0 ∷ []; spills = [] ∷ [] };
  fields = record { owner = 0 ∷ []; slots = blank_slot blank_field ∷ []; spills = [] ∷ [] };
  errors = record { ids = 0 ∷ []; values = blank_error ∷ [] };
  trivia = record { ids = 0 ∷ []; values = blank_trivia ∷ [] };
  retain_trivia = retain_trivia;
}

-- `record`, `Children`, the entries of `fieldItems`, and `error`. The source panics at a node beyond
-- the records, which is a blank one here.
abbrev pub node_at : Sink → ℕ → CompactNode
node_at s n = get_or s.records n blank_node

abbrev pub children_of : Sink → ℕ → List ℕ
children_of s n = items 0 s.children n

abbrev pub fields_of : Sink → ℕ → List BuildField
fields_of s n = items blank_field s.fields n

abbrev pub error_of : Sink → ℕ → Option BuildError
error_of s n = lookup blank_error s.errors n

abbrev trivia_or_blank : Option NodeTrivia → NodeTrivia
trivia_or_blank none = blank_trivia
trivia_or_blank (some t) = t

-- `Leading` and `Trailing`
abbrev pub trivia_of : Sink → ℕ → NodeTrivia
trivia_of s n = trivia_or_blank (lookup blank_trivia s.trivia n)
