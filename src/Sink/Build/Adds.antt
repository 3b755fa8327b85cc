-- ===== src/Sink/Build/Adds.antt =====
-- What `AddChild` does to a node and to the tables.
use pawn_parser.Prelude.{ℕ, ◌+◌, ◌<◌, ◌≡◌, ◌||◌, length, set}
use pawn_parser.Sink.Links.{push}
use pawn_parser.Sink.Nodes.{CompactNode, Sink, node_at}

module _ (s : Sink) (n child : ℕ) (h : n < length s.records) where
  abbrev linked : Sink
  linked = record s { children = push 0 n child s.children; edge_count = s.edge_count + 1 }

  abbrev ended : CompactNode
  ended = record (node_at s n) { end = (node_at s child).end }

  -- The child is linked, and the node ends where the child ends.
  record Ended (t : Sink) : Type 0 where
    same_children : t.children ≡ push 0 n child s.children
    same_edges : t.edge_count ≡ s.edge_count + 1
    same_records : t.records ≡ set s.records n ended

  -- What is left of the operation.
  record Added (t : Sink) : Type 0 where
    pub linked_children : t.children ≡ push 0 n child s.children
    pub linked_edges : t.edge_count ≡ s.edge_count + 1
    pub added_node : node_at t n ≡ record (node_at s n) {
      end = (node_at s child).end;
      has_error = (node_at s n).has_error || (node_at s child).has_error;
    }
