-- ===== src/Preprocess/Conditionals/Cores.antt =====
-- What each directive leaves: the stack, the source of the frame, and the world.
use pawn_parser.Prelude.{
  ℕ, ◌≤◌, ◌<◌, ◌≡◌, refl, ap, ◌∙◌, Bool, true, false, not, ◌&&◌, List, [], ◌∷◌, Bytes, arith, leb,
  ltb, if◌then◌else◌, if_cases, Bool-cases, Option-cases, ◌⊎◌, inl, inr, length,
}
use pawn_parser.Token.Types.{Token}
use pawn_parser.Preprocess.Frame.{CondFrame, Frame, current_active}
use pawn_parser.Preprocess.Conditionals.{
  Engine, Evaluator, open_branch, close_branch, evaluate_branch, overflow_if, within_if, if_core,
  elseif_top, elseif_core, else_top, else_core, endif_core,
}
use pawn_parser.Preprocess.Conditionals.Structured.{Site, Seen, seen, holds}

-- A step has left this stack and this world, in a frame of the same source.
pub record Leaves {W : Type 0} (stack : List CondFrame) (source : Bytes) (world : Seen W)
    (r : Engine W × Frame) : Type 0 where
  pub stack_is : r.1.cond_stack ≡ stack
  pub source_is : r.1.source ≡ source
  pub world_is : seen r.0 ≡ world

-- A frame beyond the limit never has an active branch.
abbrev pub Kept : CondFrame → Type 0
Kept top = top.overflow ≡ true → (top.taken ≡ true) × (top.branch_active ≡ false)

module _ {W : Type 0} (eval : Evaluator W) (limit : ℕ) where
  close_branch-world :
      (e : Engine W) (stack : List CondFrame) (hash : Token)
      → seen (close_branch eval limit e stack hash) ≡ seen e
  unfolding close_branch
  close_branch-world e [] hash = refl
  close_branch-world e (top ∷ below) hash =
      if_cases (λ (x : Engine W). seen x ≡ seen e) (ltb top.open_branch_index (length e.branches)) _
        _ (λ _. refl) (λ _. refl)

  evaluate_branch-holds :
      (e : Engine W) (f : Frame) (site : Site) (parent : Bool)
      → ((evaluate_branch eval limit e f site.hash site.rest parent).0.0
          ≡ (parent && holds eval f.source e.world site))
        × (seen (evaluate_branch eval limit e f site.hash site.rest parent).1 ≡ seen e)
  unfolding evaluate_branch
  evaluate_branch-holds e f site false = (refl, refl)
  evaluate_branch-holds e f site true = elim (Option-cases (eval e.world f.source site.rest)) [
    | inl n ↦ rw (n, evaluate_branch) (refl, refl)
    | inr (v, n) ↦ rw (n, evaluate_branch) (refl, refl)
  ]

  -- A frame at the top with these flags, over the stack.
  abbrev pub Opens :
      Bool → Bool → Bool → List CondFrame → Bytes → Seen W → Engine W × Frame → Type 0
  Opens parent active taken below source w r =
      (top : CondFrame) × (top.parent_active ≡ parent)
      × (top.branch_active ≡ active)
      × (top.taken ≡ taken)
      × (top.overflow ≡ false)
      × Leaves (top ∷ below) source w r

  warned_world :
      (b : Bool) (e x : Engine W) → x.world ≡ e.world → (if b then e else x).world ≡ e.world
  warned_world true e x h = refl
  warned_world false e x h = h

  pub if_core-within :
      (e : Engine W) (f : Frame) (site : Site)
      → length f.cond_stack < limit
      → Opens
          (current_active f)
          (current_active f && holds eval f.source e.world site)
          (current_active f && holds eval f.source e.world site)
          f.cond_stack
          f.source
          (seen e)
          (if_core eval limit e f site.hash site.rest)
  unfolding if_core within_if open_branch
  if_core-within e f site h =
      let (chosen, kept) = evaluate_branch-holds e f site (current_active f) in
      let room : leb limit (length f.cond_stack) ≡ false = ground arith in
      rw (room, if_core)
        (
          _,
          refl,
          chosen,
          chosen,
          refl,
          record { stack_is = refl; source_is = refl; world_is = kept },
        )

  pub if_core-beyond :
      (e : Engine W) (f : Frame) (site : Site)
      → limit ≤ length f.cond_stack
      → (top : CondFrame) × (top.overflow ≡ true)
        × (top.taken ≡ true)
        × (top.branch_active ≡ false)
        × Leaves
            (top ∷ f.cond_stack)
            f.source
            (true, e.world)
            (if_core eval limit e f site.hash site.rest)
  unfolding if_core overflow_if
  if_core-beyond e f site h =
      let full : leb limit (length f.cond_stack) ≡ true = ground arith in
      rw (full, if_core)
        (
          _,
          refl,
          refl,
          refl,
          record {
            stack_is = refl;
            source_is = refl;
            world_is = ap (λ w. (true, w)) (warned_world e.depth_limit_warned e _ refl);
          },
        )

  -- The frame at the top, with the next branch open.
  abbrev opened : CondFrame → Bool → Bool → Engine W → CondFrame
  opened top active taken e = record {
    parent_active = top.parent_active;
    branch_active = active;
    taken = taken;
    open_branch_index = length e.branches;
    overflow = false;
  }

  -- What `#elseif` and `#else` leave of a conditional beyond the limit.
  abbrev pub Skips : Engine W → Frame → Engine W × Frame → Type 0
  Skips e f r = Leaves f.cond_stack f.source (seen e) r

  elseif_top-overflow :
      (e : Engine W) (f : Frame) (top : CondFrame) (below : List CondFrame) (site : Site)
      → top.overflow ≡ true
      → Skips e f (elseif_top eval limit e f top below site.hash site.rest)
  unfolding elseif_top
  elseif_top-overflow e f top below site o = rw o (record {
    stack_is = refl;
    source_is = refl;
    world_is = close_branch-world e f.cond_stack site.hash;
  })

  elseif_top-taken :
      (e : Engine W) (f : Frame) (top : CondFrame) (below : List CondFrame) (site : Site)
      → top.overflow ≡ false
      → top.taken ≡ true
      → Opens top.parent_active false true below f.source
          (seen e)
          (elseif_top eval limit e f top below site.hash site.rest)
  unfolding elseif_top open_branch
  elseif_top-taken e f top below site o t =
      rw (o, t)
        (
          opened top false true (close_branch eval limit e f.cond_stack site.hash),
          refl,
          refl,
          refl,
          refl,
          record {
            stack_is = refl;
            source_is = refl;
            world_is = close_branch-world e f.cond_stack site.hash;
          },
        )

  elseif_top-open :
      (e : Engine W) (f : Frame) (top : CondFrame) (below : List CondFrame) (site : Site)
      → top.overflow ≡ false
      → top.taken ≡ false
      → Opens top.parent_active
          (top.parent_active && holds eval f.source e.world site)
          (top.parent_active && holds eval f.source e.world site)
          below
          f.source
          (seen e)
          (elseif_top eval limit e f top below site.hash site.rest)
  unfolding elseif_top open_branch
  elseif_top-open e f top below site o t =
      let e' = close_branch eval limit e f.cond_stack site.hash in
      let same = close_branch-world e f.cond_stack site.hash in
      let (chosen, kept) = evaluate_branch-holds e' f site top.parent_active in
      let a = (evaluate_branch eval limit e' f site.hash site.rest top.parent_active).0.0 in
      let chosen' =
        chosen ∙ ap (λ (v : Seen W). top.parent_active && holds eval f.source v.1 site) same in
      rw (o, t)
        (
          opened top a a (evaluate_branch eval limit e' f site.hash site.rest top.parent_active).1,
          refl,
          chosen',
          chosen',
          refl,
          record { stack_is = refl; source_is = refl; world_is = kept ∙ same },
        )

  else_top-overflow :
      (e : Engine W) (f : Frame) (top : CondFrame) (below : List CondFrame) (hash : Token)
      → top.overflow ≡ true
      → Skips e f (else_top eval limit e f top below hash)
  unfolding else_top
  else_top-overflow e f top below hash o = rw o (record {
    stack_is = refl;
    source_is = refl;
    world_is = close_branch-world e f.cond_stack hash;
  })

  else_top-open :
      (e : Engine W) (f : Frame) (top : CondFrame) (below : List CondFrame) (hash : Token)
      → top.overflow ≡ false
      → Opens top.parent_active
          (top.parent_active && not top.taken)
          (if top.parent_active && not top.taken then true else top.taken)
          below
          f.source
          (seen e)
          (else_top eval limit e f top below hash)
  unfolding else_top open_branch
  else_top-open e f top below hash o = rw o (
    opened top (top.parent_active && not top.taken)
        (if top.parent_active && not top.taken then true else top.taken)
        (close_branch eval limit e f.cond_stack hash),
    refl,
    refl,
    refl,
    refl,
    record { stack_is = refl; source_is = refl; world_is = close_branch-world e f.cond_stack hash },
  )

  pub endif_core-closes :
      (e : Engine W) (f : Frame) (top : CondFrame) (below : List CondFrame) (hash : Token)
      → f.cond_stack ≡ top ∷ below
      → Leaves below f.source (seen e) (endif_core eval limit e f hash)
  unfolding endif_core
  endif_core-closes e f top below hash s =
      rw (s, endif_core)
        (record {
          stack_is = refl;
          source_is = refl;
          world_is =
              if_cases (λ (x : Engine W). seen x ≡ seen e) top.overflow e
                (close_branch eval limit e f.cond_stack hash) (λ _. refl)
                (λ _. close_branch-world e f.cond_stack hash);
        })

  -- A later branch of an open conditional, when `chosen` says which flags it gets.
  pub elseif_core-next :
      (e : Engine W) (f : Frame) (top : CondFrame) (below : List CondFrame) (site : Site)
      → f.cond_stack ≡ top ∷ below
      → ((top.overflow ≡ true)
          × Leaves (top ∷ below) f.source (seen e) (elseif_core eval limit e f site.hash site.rest))
        ⊎ ((top.overflow ≡ false)
            × (top.taken ≡ true)
            × Opens top.parent_active false true below f.source
                (seen e)
                (elseif_core eval limit e f site.hash site.rest))
        ⊎ ((top.overflow ≡ false)
            × (top.taken ≡ false)
            × Opens top.parent_active
                (top.parent_active && holds eval f.source e.world site)
                (top.parent_active && holds eval f.source e.world site)
                below
                f.source
                (seen e)
                (elseif_core eval limit e f site.hash site.rest))
  unfolding elseif_core
  elseif_core-next e f top below site s =
      rw (s, elseif_core)
        (elim (Bool-cases top.overflow) [
          | inl o ↦ inl (o, rw (← s) (elseif_top-overflow e f top below site o))
          | inr o ↦ elim (Bool-cases top.taken) [
            | inl t ↦ inr (inl (o, t, elseif_top-taken e f top below site o t))
            | inr t ↦ inr (inr (o, t, elseif_top-open e f top below site o t))
          ]
        ])

  pub else_core-next :
      (e : Engine W) (f : Frame) (top : CondFrame) (below : List CondFrame) (hash : Token)
      → f.cond_stack ≡ top ∷ below
      → ((top.overflow ≡ true)
          × Leaves (top ∷ below) f.source (seen e) (else_core eval limit e f hash))
        ⊎ ((top.overflow ≡ false)
            × Opens top.parent_active
                (top.parent_active && not top.taken)
                (if top.parent_active && not top.taken then true else top.taken)
                below
                f.source
                (seen e)
                (else_core eval limit e f hash))
  unfolding else_core
  else_core-next e f top below hash s =
      rw (s, else_core)
        (elim (Bool-cases top.overflow) [
          | inl o ↦ inl (o, rw (← s) (else_top-overflow e f top below hash o))
          | inr o ↦ inr (o, else_top-open e f top below hash o)
        ])
