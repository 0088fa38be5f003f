-- ===== src/Steps.antt =====
-- internal/core/apply.go: the steps of a transaction, their order, and the changes that undo them.
pub mod Sources
pub mod Order
pub mod Inverse
use crenel.Prelude.{
  ℕ, Bool, true, false, not, ◌&&◌, ◌||◌, List, [], ◌∷◌, ◌++◌, map, find, is_nil, reverse, Option,
  none, some, Text, codes, ◌==◌, text_eq, nat_eq, if◌then◌else◌, ltb, Result, ok, err, map_err,
  ◌>>=◌, sort_stable,
}
use crenel.Model.{
  Op, is_expose, Scope, internal, public, Route, unclassified, unset_ingress, LiveEdgeState,
  EdgeChange, edge_change_empty, DnsChange, dns_change_empty, EdgePlan, ChangeSet,
}
use crenel.Reports.{
  Error, apply_step_failed, snapshot_failed, RollbackError, skipped_unresponsive, undo_failed,
  Outcome,
}
use crenel.Ports.{EdgeProvider, DnsProvider}
use crenel.Engine.{EdgeBinding, Engine, binding}
use crenel.Chain.{chain_depth}

abbrev pub rank_edge : ℕ
rank_edge = 0

abbrev pub rank_internal_dns : ℕ
rank_internal_dns = 1

abbrev pub rank_public_dns : ℕ
rank_public_dns = 2

unfoldable pub dns_rank : Scope → ℕ
dns_rank public = rank_public_dns
dns_rank internal = rank_internal_dns

-- The prior routes of the removed hosts: for each, the first that has the host, spelled alike.
unfoldable pub prior_routes : List Text → List Route → List Route
prior_routes [] snapshot = []
prior_routes (h ∷ hs) snapshot =
    let rest = prior_routes hs snapshot in
    elim (find (λ r. r.host == h) snapshot) [ some r ↦ r ∷ rest | none ↦ rest ]

unfoldable pub invert_edge : EdgeChange → LiveEdgeState → EdgeChange
unfolding prior_routes
invert_edge c snapshot = record {
  add_routes = prior_routes c.remove_hosts snapshot.routes;
  remove_hosts = map (λ r. r.host) c.add_routes;
  deny_catch_all_will_be_present = true;
}

unfoldable pub invert_dns : DnsChange → DnsChange
invert_dns c = record {
  scope = c.scope;
  add = c.remove;
  remove = c.add;
  managed = c.managed;
  rendered = [];
}

-- the zero value that a missing key of the map of snapshots gives
abbrev zero_live : LiveEdgeState
zero_live = record {
  routes = [];
  deny_catch_all_present = false;
  unparsed = [];
  generator = [];
  ingress_kind = unset_ingress;
  persistence = unclassified;
  raw = [];
}

abbrev pub Snapshots : Type 0
Snapshots = List (Text × LiveEdgeState)

unfoldable pub snapshot_of : Snapshots → Text → LiveEdgeState
snapshot_of [] name = zero_live
snapshot_of ((n, s) ∷ rest) name = if n == name then s else snapshot_of rest name

pub record ApplyStep (W : Type 0) : Type 0 where
  pub name : Text
  pub rank : ℕ
  pub depth : ℕ
  pub edge : Option (EdgeProvider W)
  pub forward : W → W × Option Error
  pub undo : W → W × Option Error

-- `ChangeSet{Op: op, Edge: change}`
abbrev pub edge_change_set : Op → EdgeChange → ChangeSet
edge_change_set op change = record { op = op; edge = change; edges = []; dns = []; new_public = [] }

abbrev pub edge_label : EdgePlan → Text
edge_label p = codes "edge[" ++ (p.edge ++ (codes "·" ++ (p.driver ++ codes "]")))

module _ {W : Type 0} where
  abbrev pub scope_name : DnsProvider W → Text
  scope_name p = elim p.scope [ internal ↦ codes "internal" | public ↦ codes "public" ]

  abbrev pub dns_label : DnsProvider W → Text
  dns_label p = p.name ++ (codes "/" ++ scope_name p)

  -- the loop that reads each participating edge before anything is applied
  unfoldable pub snapshots : Engine W → List EdgePlan → W → Result Error Snapshots
  snapshots e [] w = ok []
  snapshots e (p ∷ ps) w =
      let rest = snapshots e ps w in
      elim (binding e p.edge) [
        | none ↦ rest
        | some b ↦ do
          live ← map_err (snapshot_failed p.edge) (b.provider.read_live_state w)
          others ← rest
          ok ((p.edge, live) ∷ others)
      ]

  abbrev pub edge_step : Engine W → Op → Snapshots → EdgePlan → EdgeBinding W → ApplyStep W
  edge_step e op snaps p b = record {
    name = edge_label p;
    rank = rank_edge;
    depth = chain_depth e p.edge;
    edge = some b.provider;
    forward = b.provider.apply (edge_change_set op p.change);
    undo = b.provider.apply (edge_change_set op (invert_edge p.change (snapshot_of snaps p.edge)));
  }

  unfoldable pub edge_steps : Engine W → Op → Snapshots → List EdgePlan → List (ApplyStep W)
  edge_steps e op snaps [] = []
  edge_steps e op snaps (p ∷ ps) =
      let rest = edge_steps e op snaps ps in
      if edge_change_empty p.change
      then rest
      else elim (binding e p.edge) [ none ↦ rest | some b ↦ edge_step e op snaps p b ∷ rest ]

  abbrev pub dns_step : DnsProvider W → DnsChange → ApplyStep W
  dns_step p change = record {
    name = dns_label p;
    rank = dns_rank p.scope;
    depth = 0;
    edge = none;
    forward = p.apply change;
    undo = p.apply (invert_dns change);
  }

  -- The changes stand at the positions of the providers.
  unfoldable pub dns_steps : List (DnsProvider W) → List DnsChange → List (ApplyStep W)
  dns_steps [] changes = []
  dns_steps (p ∷ ps) [] = []
  dns_steps (p ∷ ps) (c ∷ cs) =
      let rest = dns_steps ps cs in if dns_change_empty c then rest else dns_step p c ∷ rest

  -- the `less` of `SliceStable`; the flag is `op.Verb == Expose`
  unfoldable pub step_less : Bool → ApplyStep W → ApplyStep W → Bool
  step_less ascending s t =
      if not (s.rank == t.rank)
      then (if ascending then ltb s.rank t.rank else ltb t.rank s.rank)
      else if ascending
      then ltb t.depth s.depth
      else ltb s.depth t.depth

  unfoldable pub build_steps : Engine W → Op → ChangeSet → Snapshots → List (ApplyStep W)
  unfolding edge_steps dns_steps
  build_steps e op cs snaps =
      sort_stable (step_less (is_expose op.verb))
        (edge_steps e op snaps cs.edges ++ dns_steps e.dns cs.dns)
