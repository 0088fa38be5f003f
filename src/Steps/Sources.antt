-- ===== src/Steps/Sources.antt =====
-- internal/core/apply.go: what the steps of a transaction come from.
use mathlib.Core.List.{map-append}
use crenel.Prelude.{
  not, ◌≡◌, refl, sym, List, [], ◌∷◌, ◌++◌, map, inl, inr, Bool-cases, Option-cases, none, some,
  if◌then◌else◌, sort_stable, sort_stable-map, under,
}
use crenel.Model.{
  Op, is_expose, EdgePlan, edge_change_empty, DnsChange, dns_change_empty, ChangeSet,
}
use crenel.Ports.{DnsProvider}
use crenel.Engine.{EdgeBinding, Engine, binding}
use crenel.Steps.{
  ApplyStep, Snapshots, edge_step, dns_step, edge_steps, dns_steps, step_less, build_steps,
}

-- A step comes from the plan of a bound edge, or from the change of a DNS provider.
pub data Origin (W : Type 0) : Type 0 where
  from_edge : EdgePlan → EdgeBinding W → Origin W
  from_dns : DnsProvider W → DnsChange → Origin W

module _ {W : Type 0} where
  -- the plans that change something, of edges that the engine binds
  unfoldable pub edge_origins : Engine W → List EdgePlan → List (Origin W)
  edge_origins e [] = []
  edge_origins e (p ∷ ps) = elim (binding e p.edge) [
    | none ↦ edge_origins e ps
    | some b ↦
        if not (edge_change_empty p.change)
        then from_edge p b ∷ edge_origins e ps
        else edge_origins e ps
  ]

  -- the changes that are not empty, with the providers at their positions
  unfoldable pub dns_origins : List (DnsProvider W) → List DnsChange → List (Origin W)
  dns_origins [] changes = []
  dns_origins (p ∷ ps) [] = []
  dns_origins (p ∷ ps) (c ∷ cs) =
      if not (dns_change_empty c) then from_dns p c ∷ dns_origins ps cs else dns_origins ps cs

  abbrev pub origins : Engine W → ChangeSet → List (Origin W)
  origins e cs = edge_origins e cs.edges ++ dns_origins e.dns cs.dns

  abbrev pub step_of : Engine W → Op → Snapshots → Origin W → ApplyStep W
  step_of e op snaps (from_edge p b) = edge_step e op snaps p b
  step_of e op snaps (from_dns d c) = dns_step d c

  edge_steps-origins :
      (e : Engine W) (op : Op) (snaps : Snapshots) (ps : List EdgePlan)
      → edge_steps e op snaps ps ≡ map (step_of e op snaps) (edge_origins e ps)
  unfolding edge_steps edge_origins
  edge_steps-origins e op snaps [] = refl
  edge_steps-origins e op snaps (p ∷ ps) = elim (Option-cases (binding e p.edge)) [
    | inl absent ↦ elim (Bool-cases (edge_change_empty p.change)) [
      | inl t ↦ rw (absent, t, edge_origins) (edge_steps-origins e op snaps ps)
      | inr t ↦ rw (absent, t, edge_origins) (edge_steps-origins e op snaps ps)
    ]
    | inr (b, found) ↦ elim (Bool-cases (edge_change_empty p.change)) [
      | inl t ↦ rw (found, t, edge_origins) (edge_steps-origins e op snaps ps)
      | inr t ↦ rw (found, t, edge_origins, edge_steps-origins e op snaps ps) refl
    ]
  ]

  dns_steps-origins :
      (e : Engine W) (op : Op) (snaps : Snapshots) (ps : List (DnsProvider W)) (cs : List DnsChange)
      → dns_steps ps cs ≡ map (step_of e op snaps) (dns_origins ps cs)
  unfolding dns_steps dns_origins
  dns_steps-origins e op snaps [] cs = refl
  dns_steps-origins e op snaps (p ∷ ps) [] = refl
  dns_steps-origins e op snaps (p ∷ ps) (c ∷ cs) = elim (Bool-cases (dns_change_empty c)) [
    | inl t ↦ rw t (dns_steps-origins e op snaps ps cs)
    | inr t ↦ rw (t, dns_steps-origins e op snaps ps cs) refl
  ]

  -- the order of the origins, which is that of their steps
  abbrev pub sorted_origins : Engine W → Op → ChangeSet → Snapshots → List (Origin W)
  sorted_origins e op cs snaps =
      sort_stable (under (step_less (is_expose op.verb)) (step_of e op snaps)) (origins e cs)

  pub build_steps-sorted :
      (e : Engine W) (op : Op) (cs : ChangeSet) (snaps : Snapshots)
      → build_steps e op cs snaps ≡ map (step_of e op snaps) (sorted_origins e op cs snaps)
  unfolding build_steps
  build_steps-sorted e op cs snaps =
      rw
        (
          edge_steps-origins e op snaps cs.edges,
          dns_steps-origins e op snaps e.dns cs.dns,
          sym (
              map-append (step_of e op snaps) (edge_origins e cs.edges) (dns_origins e.dns cs.dns)),
        )
        (sort_stable-map (step_less (is_expose op.verb)) (step_of e op snaps) (origins e cs))
