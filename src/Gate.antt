-- ===== src/Gate.antt =====
-- internal/core/gate.go: the refuse-to-manage gate, which reads live ownership before a change.
pub mod Permit
pub mod ChainPermit
use crenel.Prelude.{
  ℕ, Bool, true, false, not, ◌&&◌, ◌||◌, List, [], ◌∷◌, ◌++◌, map, any, contains, find, is_nil,
  Option, none, some, Text, ◌==◌, text_eq, nat_eq, equal_fold, if◌then◌else◌, ltb, Result, ok, err,
  ◌>>=◌, ◌>>◌, map_err, sort_stable,
}
use crenel.Model.{
  Op, Route, Ownership, own_crenel, own_unmanaged, own_foreign, own_unknown, unset, LiveEdgeState,
  EdgeChange, edge_change_empty, EdgePlan, ChangeSet,
}
use crenel.Reports.{Error, refuse_generated, refuse_foreign, refuse_unknown, gate_read_failed}
use crenel.Engine.{EdgeBinding, Engine, binding}
use crenel.Chain.{ChainRole, role_none, role_terminal, role_forward, role_for}
use crenel.Follow.{indexed_route}

-- the order of Go's strings, byte by byte
unfoldable pub text_less : Text → Text → Bool
text_less [] [] = false
text_less [] (y ∷ b) = true
text_less (x ∷ a) [] = false
text_less (x ∷ a) (y ∷ b) = ltb x y || (x == y && text_less a b)

unfoldable pub distinct : List Text → List Text
distinct [] = []
distinct (h ∷ hs) = let rest = distinct hs in if contains rest h then rest else h ∷ rest

-- `touchedHosts`
unfoldable pub touched_hosts : EdgeChange → List Text
touched_hosts c =
    sort_stable text_less (distinct (map (λ r. r.host) c.add_routes ++ c.remove_hosts))

-- `ownershipOf`, by the first route of the host
unfoldable pub ownership_of : LiveEdgeState → Text → Ownership
ownership_of live host = elim (find (λ r. equal_fold r.host host) live.routes) [
  | some r ↦ r.ownership
  | none ↦ unset
]

-- one host whose route has an owner
unfoldable pub gate_owner : Bool → Text → Text → Ownership → Result Error (Unit {0})
gate_owner force edge host own_foreign = err (refuse_foreign host edge)
gate_owner force edge host own_unknown = if not force then err (refuse_unknown host edge) else ok tt
gate_owner force edge host own_crenel = ok tt
gate_owner force edge host own_unmanaged = ok tt
gate_owner force edge host unset = ok tt

-- one touched host: with no route it has no owner to consult
unfoldable pub gate_host : Bool → Text → List Route → Text → Result Error (Unit {0})
unfolding gate_owner
gate_host force edge routes h = elim (indexed_route routes h) [
  | none ↦ ok tt
  | some r ↦ gate_owner force edge h r.ownership
]

unfoldable pub gate_hosts : Bool → Text → List Route → List Text → Result Error (Unit {0})
unfolding gate_host
gate_hosts force edge routes [] = ok tt
gate_hosts force edge routes (h ∷ hs) =
    gate_host force edge routes h >> gate_hosts force edge routes hs

unfoldable pub gate_live : Bool → Text → EdgeChange → LiveEdgeState → Result Error (Unit {0})
unfolding gate_hosts
gate_live force edge change live =
    if not (live.generator == [])
    then err (refuse_generated edge live.generator)
    else gate_hosts force edge live.routes (touched_hosts change)

unfoldable pub gate_chain_live : Bool → Text → Text → LiveEdgeState → Result Error (Unit {0})
unfolding gate_owner
gate_chain_live force edge host live =
    if not (live.generator == [])
    then err (refuse_generated edge live.generator)
    else gate_owner force edge host (ownership_of live host)

abbrev is_forward : ChainRole → Bool
is_forward role_forward = true
is_forward role_terminal = false
is_forward role_none = false

abbrev takes_part : ChainRole → Bool
takes_part role_forward = true
takes_part role_terminal = true
takes_part role_none = false

module _ {W : Type 0} where
  -- the loop over the participants of a chain
  unfoldable pub gate_participants :
      Engine W → Op → W → List (EdgeBinding W) → Result Error (Unit {0})
  unfolding gate_chain_live
  gate_participants e op w [] = ok tt
  gate_participants e op w (b ∷ bs) =
      (if takes_part (role_for e b op.service)
        then (do
          live ← map_err (gate_read_failed b.name) (b.provider.read_live_state w)
          gate_chain_live e.force b.name op.host live)
        else ok tt)
      >> gate_participants e op w bs

  unfoldable pub gate_chain_ownership : Engine W → Op → W → Result Error (Unit {0})
  gate_chain_ownership e op w =
      if op.host == [] || not (any (λ b. is_forward (role_for e b op.service)) e.edges)
      then ok tt
      else gate_participants e op w e.edges

  unfoldable pub gate_plan : Engine W → W → EdgePlan → Result Error (Unit {0})
  unfolding gate_live
  gate_plan e w p = if edge_change_empty p.change then ok tt else elim (binding e p.edge) [
    | none ↦ ok tt
    | some b ↦ do
      live ← map_err (gate_read_failed p.edge) (b.provider.read_live_state w)
      gate_live e.force p.edge p.change live
  ]

  unfoldable pub gate_plans : Engine W → W → List EdgePlan → Result Error (Unit {0})
  gate_plans e w [] = ok tt
  gate_plans e w (p ∷ ps) = gate_plan e w p >> gate_plans e w ps

  unfoldable pub gate_ownership : Engine W → ChangeSet → W → Result Error (Unit {0})
  gate_ownership e cs w = gate_chain_ownership e cs.op w >> gate_plans e w cs.edges
