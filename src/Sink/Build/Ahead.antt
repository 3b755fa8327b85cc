-- ===== src/Sink/Build/Ahead.antt =====
-- A sink that begins as another does so after each operation on new nodes.
use pawn_parser.Prelude.{
  ℕ, ◌+◌, ◌≤◌, ◌≡◌, ◌∙◌, true, not, ◌&&◌, List, [], ◌∷◌, arith, ◌==◌, if_cases, length, take,
  length-set, length-append,
}
use pawn_parser.Sink.Links.{Links, push, put}
use pawn_parser.Sink.Sparse.{update}
use pawn_parser.Sink.Nodes.{
  CompactNode, BuildError, NodeTrivia, Sink, blank_error, blank_trivia, blank_field, node_at,
  trivia_of,
}
use pawn_parser.Sink.Build.{
  is_empty, NodeValue, no_trivia, is_blank_error, with_record, with_trivia, last_child, set_node,
  set_trivia, store, end_with, add_child, set_field, set_children,
}
use pawn_parser.Sink.Build.Columns.{take-set_behind, take-append_behind}
use pawn_parser.Sink.Build.Tables.{Grown, node-Grown, push-Grown, put-Grown}
use pawn_parser.Sink.Build.Values.{Widened, node-Widened, update-Widened}

-- Each column has an entry for each node.
pub record Aligned (s : Sink) : Type 0 where
  pub children_align : length s.children.owner ≡ length s.records
  pub fields_align : length s.fields.owner ≡ length s.records
  pub errors_align : length s.errors.ids ≡ length s.records
  pub trivia_align : length s.trivia.ids ≡ length s.records

module _ (old : Sink) (aligned : Aligned old) where
  -- A sink that begins as `old`.
  pub record Ahead (s : Sink) : Type 0 where
    pub records_are : take (length old.records) s.records ≡ old.records
    pub records_grow : length old.records ≤ length s.records
    pub children_grow : Grown 0 old.children s.children
    pub fields_grow : Grown blank_field old.fields s.fields
    pub errors_grow : Widened blank_error old.errors s.errors
    pub trivia_grow : Widened blank_trivia old.trivia s.trivia
    pub retains : s.retain_trivia ≡ old.retain_trivia

  pub set_node-Ahead :
      (n : ℕ) (f : CompactNode → CompactNode) (s : Sink)
      → length old.records ≤ n
      → Ahead s
      → Ahead (set_node n f s)
  set_node-Ahead n f s h a = record {
    records_are =
        take-set_behind (length old.records) s.records n (f (node_at s n)) h ∙ a.records_are;
    records_grow = omega (arith, a.records_grow, length-set s.records n (f (node_at s n)));
    children_grow = a.children_grow;
    fields_grow = a.fields_grow;
    errors_grow = a.errors_grow;
    trivia_grow = a.trivia_grow;
    retains = a.retains;
  }

  update_trivia :
      (n : ℕ) (f : NodeTrivia → NodeTrivia) (s : Sink)
      → length old.records ≤ n
      → Ahead s
      → Ahead (record s { trivia = update blank_trivia n f s.trivia })
  update_trivia n f s h a = record {
    records_are = a.records_are;
    records_grow = a.records_grow;
    children_grow = a.children_grow;
    fields_grow = a.fields_grow;
    errors_grow = a.errors_grow;
    trivia_grow =
        update-Widened blank_trivia old.trivia n f s.trivia (omega (arith, aligned.trivia_align))
          a.trivia_grow;
    retains = a.retains;
  }

  pub update_error :
      (n : ℕ) (f : BuildError → BuildError) (s : Sink)
      → length old.records ≤ n
      → Ahead s
      → Ahead (record s { errors = update blank_error n f s.errors })
  update_error n f s h a = record {
    records_are = a.records_are;
    records_grow = a.records_grow;
    children_grow = a.children_grow;
    fields_grow = a.fields_grow;
    errors_grow =
        update-Widened blank_error old.errors n f s.errors (omega (arith, aligned.errors_align))
          a.errors_grow;
    trivia_grow = a.trivia_grow;
    retains = a.retains;
  }

  with_children :
      (s : Sink) (l : Links ℕ) (edges : ℕ)
      → Grown 0 old.children l
      → Ahead s
      → Ahead (record s { children = l; edge_count = edges })
  with_children s l edges g a = record {
    records_are = a.records_are;
    records_grow = a.records_grow;
    children_grow = g;
    fields_grow = a.fields_grow;
    errors_grow = a.errors_grow;
    trivia_grow = a.trivia_grow;
    retains = a.retains;
  }

  pub set_trivia-Ahead :
      (n : ℕ) (f : NodeTrivia → NodeTrivia) (s : Sink)
      → length old.records ≤ n
      → Ahead s
      → Ahead (set_trivia n f s)
  unfolding set_trivia
  set_trivia-Ahead n f s h a =
      if_cases Ahead s.retain_trivia _ _ (λ _. update_trivia n f s h a) (λ _. a)

  end_with-Ahead :
      (n child : ℕ) (s : Sink) → length old.records ≤ n → Ahead s → Ahead (end_with n child s)
  unfolding end_with
  end_with-Ahead n child s h a =
      set_trivia-Ahead n
        (λ t. record t {
          trailing =
              (trivia_of (set_node n (λ r. record r { end = (node_at s child).end }) s)
                child).trailing;
        })
        (set_node n (λ r. record r { end = (node_at s child).end }) s) h
        (set_node-Ahead n (λ r. record r { end = (node_at s child).end }) s h a)

  with_record-Ahead : (base : CompactNode) (s : Sink) → Ahead s → Ahead (with_record base s)
  with_record-Ahead base s a = record {
    records_are =
        take-append_behind (length old.records) s.records (base ∷ []) a.records_grow
        ∙ a.records_are;
    records_grow = omega (arith, a.records_grow, length-append s.records (base ∷ []));
    children_grow = node-Grown 0 old.children s.children a.children_grow;
    fields_grow = node-Grown blank_field old.fields s.fields a.fields_grow;
    errors_grow = node-Widened blank_error old.errors s.errors a.errors_grow;
    trivia_grow = node-Widened blank_trivia old.trivia s.trivia a.trivia_grow;
    retains = a.retains;
  }

  with_trivia-Ahead : (v : NodeValue) (s : Sink) → Ahead s → Ahead (with_trivia v s)
  unfolding with_trivia
  with_trivia-Ahead v s a =
      let b = with_record-Ahead v.base s a in
      if_cases Ahead (s.retain_trivia && not (no_trivia v.trivia)) _ _
        (λ _.
          update_trivia (length s.records) (λ _. v.trivia) (with_record v.base s) a.records_grow b)
        (λ _. b)

  pub store-Ahead : (v : NodeValue) (s : Sink) → Ahead s → Ahead (store v s).1
  unfolding store
  store-Ahead v s a =
      let b = with_trivia-Ahead v s a in
      if_cases Ahead (is_blank_error v.error) _ _ (λ _. b)
        (λ _. update_error (length s.records) (λ _. v.error) (with_trivia v s) a.records_grow b)

  pub add_child-Ahead :
      (n child : ℕ) (s : Sink) → length old.records ≤ n → Ahead s → Ahead (add_child n child s)
  unfolding add_child
  add_child-Ahead n child s h a =
      if_cases Ahead (child == 0) _ _ (λ _. a)
        (λ _.
          let linked =
            with_children s (push 0 n child s.children) (s.edge_count + 1)
              (push-Grown 0 old.children n child s.children (omega (arith, aligned.children_align))
                a.children_grow)
              a in
          let ended = end_with-Ahead n child _ h linked in
          if_cases Ahead _ _ _
            (λ _. set_node-Ahead n (λ r. record r { has_error = true }) _ h ended) (λ _. ended))

  pub set_children-Ahead :
      (n : ℕ) (cs : List ℕ) (s : Sink)
      → length old.records ≤ n
      → Ahead s
      → Ahead (set_children n cs s)
  unfolding set_children
  set_children-Ahead n cs s h a =
      let linked =
        with_children s (put 0 n cs s.children) _
          (put-Grown 0 old.children n cs s.children (omega (arith, aligned.children_align))
            a.children_grow)
          a in
      if_cases Ahead (is_empty cs) _ _ (λ _. linked)
        (λ _. end_with-Ahead n (last_child cs) _ h linked)

  pub set_field-Ahead :
      (n id child : ℕ) (s : Sink)
      → length old.records ≤ n
      → Ahead s
      → Ahead (set_field n id child s)
  unfolding set_field
  set_field-Ahead n id child s h a =
      if_cases Ahead (child == 0) _ _ (λ _. a)
        (λ _. record {
          records_are = a.records_are;
          records_grow = a.records_grow;
          children_grow = a.children_grow;
          fields_grow =
              push-Grown blank_field old.fields n _ s.fields (omega (arith, aligned.fields_align))
                a.fields_grow;
          errors_grow = a.errors_grow;
          trivia_grow = a.trivia_grow;
          retains = a.retains;
        })
