-- ===== src/Preprocess/Conditionals/Structured.antt =====
-- Conditionals that are nested as their directives say, as trees, and what such a text means.
use pawn_parser.Prelude.{
  ℕ, zero, suc, Bool, true, false, not, List, [], ◌∷◌, ◌++◌, Bytes, Option, none, some, ◌==◌,
  if◌then◌else◌,
}
use pawn_parser.Token.Types.{Token}
use pawn_parser.Preprocess.Frame.{Frame, current_active}
use pawn_parser.Preprocess.Conditionals.{
  Engine, Evaluator, if_core, elseif_core, else_core, endif_core,
}

-- The hash of a directive and the rest of its line.
pub record Site : Type 0 where
  pub hash : Token
  pub rest : List Token

-- What the engine meets: a directive, or anything else. Behind what stops the engine it meets nothing
-- more.
pub data Event (A : Type 0) : Type 0 where
  text : A → Event A
  on_if on_elseif : Site → Event A
  on_else on_endif : Token → Event A

mutual
  pub data Blocks (A : Type 0) : Type 0 where
    done : Blocks A
    text : A → Blocks A → Blocks A
    conditional : Site → Blocks A → Arms A → Blocks A → Blocks A

  pub data Arms (A : Type 0) : Type 0 where
    endif : Token → Arms A
    elseif : Site → Blocks A → Arms A → Arms A
    otherwise : Token → Blocks A → Token → Arms A

unfoldable mutual
  pub flatten : {A : Type 0} → Blocks A → List (Event A)
  flatten done = []
  flatten (Blocks.text a bs) = Event.text a ∷ flatten bs
  flatten (conditional site body arms bs) =
      on_if site ∷ (flatten body ++ (flatten_arms arms ++ flatten bs))

  pub flatten_arms : {A : Type 0} → Arms A → List (Event A)
  flatten_arms (endif hash) = on_endif hash ∷ []
  flatten_arms (elseif site body arms) = on_elseif site ∷ (flatten body ++ flatten_arms arms)
  flatten_arms (otherwise hash body end) = on_else hash ∷ (flatten body ++ (on_endif end ∷ []))

abbrev truth : Option ℕ → Bool
truth none = false
truth (some v) = not (v == 0)

-- A condition holds when it has a value other than 0.
abbrev pub holds : {W : Type 0} → Evaluator W → Bytes → W → Site → Bool
holds eval source w site = truth (eval w source site.rest)

-- What text can change of the engine: whether it is truncated, from where on the output stays as it
-- is, and the world.
abbrev pub Seen : Type 0 → Type 0
Seen W = Bool × W

abbrev pub seen : {W : Type 0} → Engine W → Seen W
seen e = (e.truncated, e.world)

module _ {A W : Type 0} (eval : Evaluator W) (max_conditional_depth : ℕ)
    (act : A → Seen W → Seen W) where
  abbrev pub with_seen : Engine W → Seen W → Engine W
  with_seen e v = record e { truncated = v.0; world = v.1 }

  -- What the engine does at an event: text acts on the world where the frame is active.
  unfoldable pub step : Event A → Engine W × Frame → Engine W × Frame
  unfolding if_core elseif_core else_core endif_core
  step (Event.text a) (e, f) = (if current_active f then with_seen e (act a (seen e)) else e, f)
  step (on_if site) (e, f) = if_core eval max_conditional_depth e f site.hash site.rest
  step (on_elseif site) (e, f) = elseif_core eval max_conditional_depth e f site.hash site.rest
  step (on_else hash) (e, f) = else_core eval max_conditional_depth e f hash
  step (on_endif hash) (e, f) = endif_core eval max_conditional_depth e f hash

  unfoldable pub run : List (Event A) → Engine W × Frame → Engine W × Frame
  unfolding step
  run [] s = s
  run (event ∷ events) s = run events (step event s)

  -- A text that is not active does nothing, but a conditional in it that is nested too deep
  -- truncates. `room` is how much deeper conditionals may nest.
  unfoldable mutual
    pub skip : ℕ → Blocks A → Seen W → Seen W
    skip room done v = v
    skip room (Blocks.text a bs) v = skip room bs v
    skip zero (conditional site body arms bs) v = skip zero bs (true, v.1)
    skip (suc room) (conditional site body arms bs) v =
        skip (suc room) bs (skip_arms room arms (skip room body v))

    pub skip_arms : ℕ → Arms A → Seen W → Seen W
    skip_arms room (endif hash) v = v
    skip_arms room (elseif site body arms) v = skip_arms room arms (skip room body v)
    skip_arms room (otherwise hash body end) v = skip room body v

  module _ (source : Bytes) where
    -- The meaning of a text: of each conditional, the first branch whose condition holds, or else
    -- the branch of its `#else`, if it has one; the other branches are skipped. A conditional that
    -- is nested too deep only truncates.
    unfoldable mutual
      unfolding skip skip_arms

      pub meaning : ℕ → Blocks A → Seen W → Seen W
      meaning room done v = v
      meaning room (Blocks.text a bs) v = meaning room bs (act a v)
      meaning zero (conditional site body arms bs) v = meaning zero bs (true, v.1)
      meaning (suc room) (conditional site body arms bs) v =
          meaning (suc room) bs (elim (holds eval source v.1 site) [
            | true ↦ skip_arms room arms (meaning room body v)
            | false ↦ meaning_arms room arms (skip room body v)
          ])

      pub meaning_arms : ℕ → Arms A → Seen W → Seen W
      meaning_arms room (endif hash) v = v
      meaning_arms room (elseif site body arms) v = elim (holds eval source v.1 site) [
        | true ↦ skip_arms room arms (meaning room body v)
        | false ↦ meaning_arms room arms (skip room body v)
      ]
      meaning_arms room (otherwise hash body end) v = meaning room body v
