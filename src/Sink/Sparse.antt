-- ===== src/Sink/Sparse.antt =====
-- compact_sink.go: the errors and the trivia of nodes, which few nodes have: a column of the nodes names
-- a place in a list, and 0 is for a node that has none.
use pawn_parser.Prelude.{
  ℕ, List, [], ◌∷◌, ◌++◌, Option, none, some, ◌==◌, if◌then◌else◌, length, get_or, set,
}

pub record Sparse (T : Type 0) : Type 0 where
  pub ids : List ℕ
  pub values : List T

module _ {T : Type 0} (blank : T) where
  -- `error`, `triviaData`
  unfoldable pub lookup : Sparse T → ℕ → Option T
  lookup s n =
      let id = get_or s.ids n 0 in if id == 0 then none else some (get_or s.values id blank)

  -- `ensureError`, `ensureTrivia`: the place of a node's value, which is made if there is none.
  unfoldable pub ensure_value : ℕ → Sparse T → ℕ × Sparse T
  ensure_value n s =
      if get_or s.ids n 0 == 0
      then (
        length s.values,
        record { ids = set s.ids n (length s.values); values = s.values ++ (blank ∷ []) },
      )
      else (get_or s.ids n 0, s)

  -- A change to the value of a node.
  unfoldable pub update : ℕ → (T → T) → Sparse T → Sparse T
  unfolding ensure_value
  update n f s =
      let (id, t) = ensure_value n s in
      record t { values = set t.values id (f (get_or t.values id blank)) }
