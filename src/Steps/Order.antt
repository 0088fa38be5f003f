-- ===== src/Steps/Order.antt =====
-- The order of the steps: what makes a host more public comes last on expose and first otherwise.
use crenel.Prelude.{
  ℕ, ◌<◌, ◌≤◌, Bool, true, false, ◌≡◌, refl, ◌⊎◌, arith, List, [], ◌∷◌, map, Perm, All, Ordered,
  sort_stable-Ordered, sort_stable-Perm, NotBefore, under,
}
use crenel.Model.{Op, is_expose, Scope, internal, public, ChangeSet}
use crenel.Engine.{Engine}
use crenel.Chain.{chain_depth}
use crenel.Steps.{ApplyStep, Snapshots, dns_rank, step_less, build_steps}
use crenel.Steps.Sources.{
  Origin, from_edge, from_dns, origins, step_of, sorted_origins, build_steps-sorted,
}

-- DNS is the more public the wider its scope is.
abbrev pub reach : Scope → ℕ
reach internal = 1
reach public = 2

dns_rank-reach : (s : Scope) → dns_rank s ≡ reach s
unfolding dns_rank
dns_rank-reach internal = refl
dns_rank-reach public = refl

-- By phase in the direction of the op, and in one phase the deeper first on expose, and last
-- otherwise
abbrev pub Leads : Bool → ℕ → ℕ → ℕ → ℕ → Type 0
Leads true phase depth phase' depth' = (phase < phase') ⊎ ((phase ≡ phase') × (depth' ≤ depth))
Leads false phase depth phase' depth' = (phase' < phase) ⊎ ((phase ≡ phase') × (depth ≤ depth'))

module _ {W : Type 0} where
  -- The edges are the first phase, internal DNS is the second and public DNS the last.
  abbrev pub phase : Origin W → ℕ
  phase (from_edge p b) = 0
  phase (from_dns d c) = reach d.scope

  abbrev pub depth_at : Engine W → Origin W → ℕ
  depth_at e (from_edge p b) = chain_depth e p.edge
  depth_at e (from_dns d c) = 0

  abbrev pub Before : Engine W → Bool → Origin W → Origin W → Type 0
  Before e ascending o u = Leads ascending (phase o) (depth_at e o) (phase u) (depth_at e u)

  step-phase :
      (e : Engine W) (op : Op) (snaps : Snapshots) (o : Origin W)
      → (step_of e op snaps o).rank ≡ phase o
  step-phase e op snaps (from_edge p b) = refl
  step-phase e op snaps (from_dns d c) = dns_rank-reach d.scope

  step-depth :
      (e : Engine W) (op : Op) (snaps : Snapshots) (o : Origin W)
      → (step_of e op snaps o).depth ≡ depth_at e o
  step-depth e op snaps (from_edge p b) = refl
  step-depth e op snaps (from_dns d c) = refl

  step_less-asym :
      (up : Bool) (s t : ApplyStep W) → step_less up s t ≡ true → step_less up t s ≡ false
  unfolding step_less
  step_less-asym true s t h = ground arith
  step_less-asym false s t h = ground arith

  step_less_trans :
      (up : Bool) (s t u : ApplyStep W)
      → step_less up t s ≡ false
      → step_less up u t ≡ false
      → step_less up u s ≡ false
  unfolding step_less
  step_less_trans true s t u h k = ground arith
  step_less_trans false s t u h k = ground arith

  not_less-Leads :
      (up : Bool) (s t : ApplyStep W)
      → step_less up t s ≡ false
      → Leads up s.rank s.depth t.rank t.depth
  unfolding step_less
  not_less-Leads true s t h = ground arith
  not_less-Leads false s t h = ground arith

  module _ (e : Engine W) (op : Op) (snaps : Snapshots) (up : Bool) where
    abbrev less : Origin W → Origin W → Bool
    less = under (step_less up) (step_of e op snaps)

    not_less-Before : (o u : Origin W) → less u o ≡ false → Before e up o u
    not_less-Before o u h =
        let leads = not_less-Leads up (step_of e op snaps o) (step_of e op snaps u) h in
        rw
          (
            step-phase e op snaps o,
            step-phase e op snaps u,
            step-depth e op snaps o,
            step-depth e op snaps u,
          )
          at leads

    All-Before :
        (o : Origin W) (us : List (Origin W)) → All (NotBefore less o) us → All (Before e up o) us
    All-Before o [] h = tt
    All-Before o (u ∷ us) h = (not_less-Before o u h.0, All-Before o us h.1)

    Ordered-Before : (os : List (Origin W)) → Ordered (NotBefore less) os → Ordered (Before e up) os
    Ordered-Before [] h = tt
    Ordered-Before (o ∷ os) h = (All-Before o os h.0, Ordered-Before os h.1)

  -- The steps are those of the nonempty plans of bound edges and of the nonempty changes of DNS
  -- providers, each once, and they are ordered: on expose the edges stand first, then internal
  -- DNS, then public DNS, and an edge before those that are less deep in the chains; for any other
  -- verb the phases are reversed, and a less deep edge stands before the deeper ones.
  pub build_steps-Ordered :
      (e : Engine W) (op : Op) (cs : ChangeSet) (snaps : Snapshots)
      → (os : List (Origin W)) × (build_steps e op cs snaps ≡ map (step_of e op snaps) os)
        × Perm (origins e cs) os
        × Ordered (Before e (is_expose op.verb)) os
  build_steps-Ordered e op cs snaps =
      let up = is_expose op.verb in
      let f = step_of e op snaps in
      (
        sorted_origins e op cs snaps,
        build_steps-sorted e op cs snaps,
        sort_stable-Perm (under (step_less up) f) (origins e cs),
        Ordered-Before e op snaps up (sorted_origins e op cs snaps) (
            sort_stable-Ordered (under (step_less up) f) (λ a b. step_less-asym up (f a) (f b))
              (λ a b c. step_less_trans up (f a) (f b) (f c)) (origins e cs)),
      )
