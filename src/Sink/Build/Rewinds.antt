-- ===== src/Sink/Build/Rewinds.antt =====
-- A rewind takes back all that was built since its mark.
use pawn_parser.Prelude.{take-length, ℕ, ◌≤◌, ◌≡◌, refl, List, arith, length}
use pawn_parser.Sink.Sparse.{update}
use pawn_parser.Sink.Nodes.{
  CompactNode, BuildError, NodeTrivia, Sink, blank_error, blank_trivia, blank_field,
}
use pawn_parser.Sink.Build.{
  NodeValue, set_node, set_trivia, store, add_child, set_field, set_children, mark_of, rewind,
}
use pawn_parser.Sink.Build.Tables.{self-Grown, Grown-cut}
use pawn_parser.Sink.Build.Values.{self-Widened, Widened-cut}
use pawn_parser.Sink.Build.Ahead.{
  Aligned, Ahead, store-Ahead, add_child-Ahead, set_children-Ahead, set_field-Ahead, set_node-Ahead,
  set_trivia-Ahead, update_error,
}

-- An operation that makes a node, or changes one whose number is `from` or more.
pub data Step (from : ℕ) : Sink → Sink → Type 0 where
  stored : (s : Sink) (v : NodeValue) → Step from s (store v s).1
  child_added : (s : Sink) (n child : ℕ) → from ≤ n → Step from s (add_child n child s)
  children_set : (s : Sink) (n : ℕ) (cs : List ℕ) → from ≤ n → Step from s (set_children n cs s)
  field_set : (s : Sink) (n id child : ℕ) → from ≤ n → Step from s (set_field n id child s)
  node_set :
      (s : Sink) (n : ℕ) (f : CompactNode → CompactNode) → from ≤ n → Step from s (set_node n f s)
  trivia_set :
      (s : Sink) (n : ℕ) (f : NodeTrivia → NodeTrivia) → from ≤ n → Step from s (set_trivia n f s)
  error_set :
      (s : Sink) (n : ℕ) (f : BuildError → BuildError)
      → from ≤ n
      → Step from s (record s { errors = update blank_error n f s.errors })

pub data Steps (from : ℕ) : Sink → Sink → Type 0 where
  none_more : (s : Sink) → Steps from s s
  first : {s t u : Sink} → Step from s t → Steps from t u → Steps from s u

module _ (old : Sink) (aligned : Aligned old) where
  step-Ahead :
      {s t : Sink} → Step (length old.records) s t → Ahead old aligned s → Ahead old aligned t
  step-Ahead (stored s v) a = store-Ahead old aligned v s a
  step-Ahead (child_added s n child h) a = add_child-Ahead old aligned n child s h a
  step-Ahead (children_set s n cs h) a = set_children-Ahead old aligned n cs s h a
  step-Ahead (field_set s n id child h) a = set_field-Ahead old aligned n id child s h a
  step-Ahead (node_set s n f h) a = set_node-Ahead old aligned n f s h a
  step-Ahead (trivia_set s n f h) a = set_trivia-Ahead old aligned n f s h a
  step-Ahead (error_set s n f h) a = update_error old aligned n f s h a

  all-Ahead :
      {s t : Sink} → Steps (length old.records) s t → Ahead old aligned s → Ahead old aligned t
  all-Ahead (none_more s) a = a
  all-Ahead (first x xs) a = all-Ahead xs (step-Ahead x a)

  Ahead-self : Ahead old aligned old
  Ahead-self = record {
    records_are = take-length (length old.records) old.records (omega arith);
    records_grow = omega arith;
    children_grow = self-Grown 0 old.children;
    fields_grow = self-Grown blank_field old.fields;
    errors_grow = self-Widened blank_error old.errors;
    trivia_grow = self-Widened blank_trivia old.trivia;
    retains = refl;
  }

  rewind-Ahead : (s : Sink) → Ahead old aligned s → rewind (mark_of old) s ≡ old
  unfolding rewind mark_of
  rewind-Ahead s a = λ i. record {
    records = a.records_are i;
    edge_count = old.edge_count;
    field_count = old.field_count;
    children = Grown-cut 0 old.children s.children aligned.children_align a.children_grow i;
    fields = Grown-cut blank_field old.fields s.fields aligned.fields_align a.fields_grow i;
    errors = Widened-cut blank_error old.errors s.errors aligned.errors_align a.errors_grow i;
    trivia = Widened-cut blank_trivia old.trivia s.trivia aligned.trivia_align a.trivia_grow i;
    retain_trivia = a.retains i;
  }

-- When each column has an entry for each node, a rewind to a mark undoes all operations since that made
-- nodes, or changed nodes made since.
pub rewind-mark_of :
    (s t : Sink) → Aligned s → Steps (length s.records) s t → rewind (mark_of s) t ≡ s
rewind-mark_of s t aligned steps =
    rewind-Ahead s aligned t (all-Ahead s aligned steps (Ahead-self s aligned))
