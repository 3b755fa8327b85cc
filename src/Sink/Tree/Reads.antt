-- ===== src/Sink/Tree/Reads.antt =====
-- What a compact tree has to hold, and how it is read.
use pawn_parser.Prelude.{
  ◌⊎◌, inl, inr, ◌||◌, ◌==◌, if_cases, Bool-cases, get_or-beyond, true, false, ◌∷◌, ℕ, zero, suc,
  ◌+◌, ◌-◌, ◌%◌, ◌^◌, ◌≤◌, ◌<◌, ◌≡◌, ◌≢◌, refl, ap, ◌∙◌, ◌↔◌, false, List, [], ◌∷◌, arith, leb,
  length, get_or, slice, take, length-take, map,
}
use pawn_parser.Sink.Nodes.{
  BuildField, fields_of, CompactNode, Sink, blank_node, node_at, children_of,
}
use pawn_parser.Sink.Tree.{
  CompactField, kept_fields, CompactTree, mapped, node_count, index_of, child_indices,
  field_entries,
}
use pawn_parser.Sink.Tree.Paths.{Reaches}

-- What a node is apart from its edges.
abbrev pub unlinked : CompactNode → CompactNode
unlinked r = record r { child_start = 0; child_count = 0; field_start = 0; field_count = 0 }

-- Of the entries of fields those stay whose nodes have a place, with their places in the tree.
pub data Keeps (remap : List ℕ) : List BuildField → List CompactField → Type 0 where
  none_left : Keeps remap [] []
  keeps :
      {es : List BuildField} {fs : List CompactField} (e : BuildField) (i : ℕ)
      → mapped remap e.node ≡ suc i
      → Keeps remap es fs
      → Keeps remap (e ∷ es) (record { id = e.id; node = i } ∷ fs)
  drops :
      {es : List BuildField} {fs : List CompactField} (e : BuildField)
      → mapped remap e.node ≡ 0
      → Keeps remap es fs
      → Keeps remap (e ∷ es) fs

-- `t` holds what `root` reaches: a node that is mapped to `suc i` is the node `i` of the tree.
pub record Encodes (s : Sink) (root : ℕ) (remap : List ℕ) (t : CompactTree) : Type 0 where
  pub reached : (id : ℕ) → (mapped remap id ≢ 0) ↔ Reaches (children_of s) root id
  pub root_is : mapped remap root ≡ suc t.root
  pub distinct : (id k : ℕ) → mapped remap id ≢ 0 → mapped remap id ≡ mapped remap k → id ≡ k
  pub index_is : (id : ℕ) → mapped remap id ≢ 0 → mapped remap id ≡ suc (index_of remap id)
  pub every :
      (i : ℕ) → i < length t.nodes → (id : ℕ) × (mapped remap id ≢ 0) × (index_of remap id ≡ i)
  pub counted : (id : ℕ) → mapped remap id ≢ 0 → index_of remap id < length t.nodes
  pub node_is :
      (id : ℕ)
      → mapped remap id ≢ 0
      → unlinked (get_or t.nodes (index_of remap id) blank_node) ≡ unlinked (node_at s id)
  pub children_are :
      (id : ℕ)
      → mapped remap id ≢ 0
      → child_indices t (index_of remap id) ≡ map (index_of remap) (children_of s id)
  pub fields_are :
      (id : ℕ)
      → mapped remap id ≢ 0
      → Keeps remap (fields_of s id) (field_entries t (index_of remap id))

get_or-take :
    (k i : ℕ) (xs : List CompactNode) (d : CompactNode)
    → i < k
    → get_or (take k xs) i d ≡ get_or xs i d
get_or-take zero i xs d h = absurd (omega arith)
get_or-take (suc k) i [] d h = refl
get_or-take (suc k) zero (x ∷ xs) d h = refl
get_or-take (suc k) (suc i) (x ∷ xs) d h = get_or-take k i xs d (omega arith)

pub get_or-slice :
    (k i : ℕ) (xs : List CompactNode) (d : CompactNode)
    → i < k
    → get_or (slice xs 1 (k + 1)) i d ≡ get_or xs (suc i) d
get_or-slice k i [] d h = get_or-take (k + 1 - 1) i [] d (omega arith)
get_or-slice k i (x ∷ xs) d h = get_or-take (k + 1 - 1) i xs d (omega arith)

pub length-slice :
    (k : ℕ) (xs : List CompactNode) → k + 1 ≤ length xs → length (slice xs 1 (k + 1)) ≡ k
length-slice k [] h = absurd (omega arith)
length-slice k (x ∷ xs) h = length-take (k + 1 - 1) xs (omega arith) ∙ omega arith

pub node_count_le : (rs : List ℕ) → node_count rs ≤ length rs
unfolding node_count
node_count_le [] = omega arith
node_count_le (zero ∷ rs) = omega (arith, node_count_le rs)
node_count_le (suc r ∷ rs) = omega (arith, node_count_le rs)

pub predecessor : (x i : ℕ) → x ≡ suc i → i < 2 ^ 32 → (x + (2 ^ 32 - 1)) % 2 ^ 32 ≡ i
predecessor x i e h = omega arith

pub positive : (x : ℕ) → x ≢ 0 → (i : ℕ) × (x ≡ suc i)
positive zero h = absurd (h refl)
positive (suc i) h = (i, refl)

pub child_indices_in :
    (t : CompactTree) (i : ℕ)
    → i < length t.nodes
    → (n : CompactNode) → get_or t.nodes i blank_node ≡ n
    → child_indices t i ≡ slice t.children n.child_start (n.child_start + n.child_count)
child_indices_in t i h n e =
    let b : leb (length t.nodes) i ≡ false = ground arith in
    rw b
      (ap (λ (r : CompactNode). slice t.children r.child_start (r.child_start + r.child_count)) e)

pub field_entries_in :
    (t : CompactTree) (i : ℕ)
    → i < length t.nodes
    → (n : CompactNode) → get_or t.nodes i blank_node ≡ n
    → field_entries t i ≡ slice t.fields n.field_start (n.field_start + n.field_count)
field_entries_in t i h n e =
    let b : leb (length t.nodes) i ≡ false = ground arith in
    rw b (ap (λ (r : CompactNode). slice t.fields r.field_start (r.field_start + r.field_count)) e)

pub kept_fields-Keeps :
    (remap : List ℕ) (es : List BuildField)
    → ((c : ℕ) → mapped remap c ≢ 0 → mapped remap c ≡ suc (index_of remap c))
    → Keeps remap es (kept_fields remap es)
unfolding kept_fields
kept_fields-Keeps remap [] h = none_left
kept_fields-Keeps remap (e ∷ es) h =
    if_cases (λ (fs : List CompactField). Keeps remap (e ∷ es) fs)
      (leb (length remap) e.node || mapped remap e.node == 0) _ _
      (λ f.
        drops e (unmapped (Bool-cases (leb (length remap) e.node)) f)
          (kept_fields-Keeps remap es h))
      (λ f.
        keeps e (index_of remap e.node) (h e.node (λ z. absurd (ground arith)))
          (kept_fields-Keeps remap es h))
  where
    unmapped :
        (leb (length remap) e.node ≡ true) ⊎ (leb (length remap) e.node ≡ false)
        → (leb (length remap) e.node || mapped remap e.node == 0) ≡ true
        → mapped remap e.node ≡ 0
    unmapped (inl a) f = get_or-beyond remap e.node 0 (ground arith)
    unmapped (inr a) f = ground arith
