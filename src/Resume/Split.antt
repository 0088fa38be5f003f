-- ===== src/Resume/Split.antt =====
-- What a resume reports as done and as pending.
use crenel.Prelude.{
  arith, ap, sym, ◌∙◌, Bool, true, not, ◌&&◌, ◌≡◌, ◌↔◌, refl, List, [], ◌∷◌, ◌++◌, inl, inr,
  Bool-cases, Text, codes, all, keep_if, map, ok,
}
use crenel.Model.{
  internal, public, Op, EdgePlan, EdgeChange, edge_change_empty, DnsChange, dns_change_empty,
  ChangeSet, change_set_empty, zero_edge_change,
}
use crenel.Ports.{DnsProvider}
use crenel.Engine.{Engine}
use crenel.Plan.{plan}
use crenel.Plan.Parts.{plan-Parts}
use crenel.Plan.Alignment.{Aligned, plan-Aligned}
use crenel.Resume.{ResumeReport, edge_progress, dns_progress, progress, diagnose}

-- the labels of what is pending, and of what is done
abbrev pending_of : List (Text × Bool) → List Text
pending_of xs = map (λ x. x.0) (keep_if (λ x. x.1) xs)

abbrev done_of : List (Text × Bool) → List Text
done_of xs = map (λ x. x.0) (keep_if (λ x. not x.1) xs)

done_of-append : (xs ys : List (Text × Bool)) → done_of (xs ++ ys) ≡ done_of xs ++ done_of ys
done_of-append [] ys = refl
done_of-append (x ∷ xs) ys = ground (arith, done_of-append xs ys)

pending_of-append :
    (xs ys : List (Text × Bool)) → pending_of (xs ++ ys) ≡ pending_of xs ++ pending_of ys
pending_of-append [] ys = refl
pending_of-append (x ∷ xs) ys = ground (arith, pending_of-append xs ys)

-- no flag is set
abbrev quiet : List (Text × Bool) → Bool
quiet xs = all (λ x. not x.1) xs

pending_of-nil : (xs : List (Text × Bool)) → (quiet xs ≡ true) ↔ (pending_of xs ≡ [])
pending_of-nil [] = (λ h. refl, λ h. refl)
pending_of-nil ((t, b) ∷ xs) = ground (arith, pending_of-nil xs)

quiet-append : (xs ys : List (Text × Bool)) → quiet (xs ++ ys) ≡ (quiet xs && quiet ys)
quiet-append [] ys = refl
quiet-append (x ∷ xs) ys = ground (arith, quiet-append xs ys)

quiet-edges :
    (ps : List EdgePlan) → quiet (edge_progress ps) ≡ all (λ p. edge_change_empty p.change) ps
unfolding edge_progress
quiet-edges [] = refl
quiet-edges (p ∷ ps) = ground (arith, quiet-edges ps)

-- an edge plan in the report: its edge and driver
abbrev pub plan_name : EdgePlan → Text
plan_name p = codes "edge[" ++ (p.edge ++ (codes "·" ++ (p.driver ++ codes "]")))

-- the edge plans with nothing left to change, and the others
abbrev pub done_plans : List EdgePlan → List EdgePlan
done_plans ps = keep_if (λ p. edge_change_empty p.change) ps

abbrev pub pending_plans : List EdgePlan → List EdgePlan
pending_plans ps = keep_if (λ p. not (edge_change_empty p.change)) ps

edge_progress-done :
    (ps : List EdgePlan) → done_of (edge_progress ps) ≡ map plan_name (done_plans ps)
unfolding edge_progress
edge_progress-done [] = refl
edge_progress-done (p ∷ ps) = elim (Bool-cases (edge_change_empty p.change)) [
  | inl e ↦ rw (e, edge_progress-done ps) refl
  | inr e ↦ rw (e, edge_progress-done ps) refl
]

edge_progress-pending :
    (ps : List EdgePlan) → pending_of (edge_progress ps) ≡ map plan_name (pending_plans ps)
unfolding edge_progress
edge_progress-pending [] = refl
edge_progress-pending (p ∷ ps) = elim (Bool-cases (edge_change_empty p.change)) [
  | inl e ↦ rw (e, edge_progress-pending ps) refl
  | inr e ↦ rw (e, edge_progress-pending ps) refl
]

empty_edge : (c : EdgeChange) → c ≡ zero_edge_change → edge_change_empty c ≡ true
unfolding edge_change_empty
empty_edge c h = rw h refl

change_set_empty-split :
    (cs : ChangeSet)
    → cs.edge ≡ zero_edge_change
    → change_set_empty cs
      ≡ (all (λ (p : EdgePlan). edge_change_empty p.change) cs.edges && all dns_change_empty cs.dns)
unfolding change_set_empty
change_set_empty-split cs h = let t = empty_edge cs.edge h in ground arith

module _ {W : Type 0} where
  quiet-dns :
      (e : Engine W) (op : Op) (w : W) (ps : List (DnsProvider W)) (cs : List DnsChange)
      → Aligned e op w ps cs
      → quiet (dns_progress ps cs) ≡ all dns_change_empty cs
  unfolding dns_progress
  quiet-dns e op w [] [] a = refl
  quiet-dns e op w [] (c ∷ cs) a = absurd a
  quiet-dns e op w (p ∷ ps) [] a = absurd a
  quiet-dns e op w (p ∷ ps) (c ∷ cs) a = ground (arith, quiet-dns e op w ps cs a.1)

  -- a DNS provider in the report: its name and scope
  abbrev pub zone_name : DnsProvider W × DnsChange → Text
  zone_name x =
      x.0.name
      ++ (codes "/" ++ elim x.0.scope [ internal ↦ codes "internal" | public ↦ codes "public" ])

  -- the providers with the changes at their positions
  abbrev pub paired : List (DnsProvider W) → List DnsChange → List (DnsProvider W × DnsChange)
  paired [] cs = []
  paired (p ∷ ps) [] = []
  paired (p ∷ ps) (c ∷ cs) = (p, c) ∷ paired ps cs

  abbrev pub done_zones : List (DnsProvider W × DnsChange) → List (DnsProvider W × DnsChange)
  done_zones xs = keep_if (λ x. dns_change_empty x.1) xs

  abbrev pub pending_zones : List (DnsProvider W × DnsChange) → List (DnsProvider W × DnsChange)
  pending_zones xs = keep_if (λ x. not (dns_change_empty x.1)) xs

  dns_progress-done :
      (e : Engine W) (op : Op) (w : W) (ps : List (DnsProvider W)) (cs : List DnsChange)
      → Aligned e op w ps cs
      → done_of (dns_progress ps cs) ≡ map zone_name (done_zones (paired ps cs))
  unfolding dns_progress
  dns_progress-done e op w [] [] a = refl
  dns_progress-done e op w [] (c ∷ cs) a = absurd a
  dns_progress-done e op w (p ∷ ps) [] a = absurd a
  dns_progress-done e op w (p ∷ ps) (c ∷ cs) a = elim (Bool-cases (dns_change_empty c)) [
    | inl t ↦ rw (t, dns_progress-done e op w ps cs a.1) refl
    | inr t ↦ rw (t, dns_progress-done e op w ps cs a.1) refl
  ]

  dns_progress-pending :
      (e : Engine W) (op : Op) (w : W) (ps : List (DnsProvider W)) (cs : List DnsChange)
      → Aligned e op w ps cs
      → pending_of (dns_progress ps cs) ≡ map zone_name (pending_zones (paired ps cs))
  unfolding dns_progress
  dns_progress-pending e op w [] [] a = refl
  dns_progress-pending e op w [] (c ∷ cs) a = absurd a
  dns_progress-pending e op w (p ∷ ps) [] a = absurd a
  dns_progress-pending e op w (p ∷ ps) (c ∷ cs) a = elim (Bool-cases (dns_change_empty c)) [
    | inl t ↦ rw (t, dns_progress-pending e op w ps cs a.1) refl
    | inr t ↦ rw (t, dns_progress-pending e op w ps cs a.1) refl
  ]

  paired-all :
      (e : Engine W) (op : Op) (w : W) (ps : List (DnsProvider W)) (cs : List DnsChange)
      → Aligned e op w ps cs
      → map (λ x. x.0) (paired ps cs) ≡ ps
  paired-all e op w [] [] a = refl
  paired-all e op w [] (c ∷ cs) a = absurd a
  paired-all e op w (p ∷ ps) [] a = absurd a
  paired-all e op w (p ∷ ps) (c ∷ cs) a = ap (λ t. p ∷ t) (paired-all e op w ps cs a.1)

  -- What a report lists of a change set
  abbrev pub Lists : Engine W → ChangeSet → ResumeReport → Type 0
  Lists e cs rr =
      (rr.already
        ≡ map plan_name (done_plans cs.edges) ++ map zone_name (done_zones (paired e.dns cs.dns)))
      × (rr.pending
          ≡ map plan_name (pending_plans cs.edges)
            ++ map zone_name (pending_zones (paired e.dns cs.dns)))

  -- If an op was planned, then the changes of the plan stand at the positions of all the DNS
  -- providers, and the report of a resume lists as done the edge plans with an empty change and then
  -- the providers with one, and as pending the other edge plans and then the other providers, each
  -- under its own name and in the order of the plan; and it has nothing to do exactly if nothing is
  -- pending.
  pub diagnose-splits :
      (e : Engine W) (op : Op) (w : W) (cs : ChangeSet)
      → plan e op w ≡ ok cs
      → (map (λ x. x.0) (paired e.dns cs.dns) ≡ e.dns)
        × Lists e cs (diagnose e op cs)
        × (((diagnose e op cs).nothing_to_do ≡ true) ↔ ((diagnose e op cs).pending ≡ []))
  unfolding diagnose progress
  diagnose-splits e op w cs h =
      let parts = plan-Parts e op w h in
      let aligned = plan-Aligned e op w cs h in
      let edges = edge_progress cs.edges in
      let zones = dns_progress e.dns cs.dns in
      let split = change_set_empty-split cs parts.no_edge in
      let joined = quiet-append edges zones in
      let still_edges = quiet-edges cs.edges in
      let still_dns = quiet-dns e op w e.dns cs.dns aligned in
      let empty : change_set_empty cs ≡ quiet (edges ++ zones) = ground arith in
      let same = pending_of-nil (edges ++ zones) in
      (
        paired-all e op w e.dns cs.dns aligned,
        (
          rw
              (
                done_of-append edges zones,
                edge_progress-done cs.edges,
                dns_progress-done e op w e.dns cs.dns aligned,
              )
              refl,
          rw
              (
                pending_of-append edges zones,
                edge_progress-pending cs.edges,
                dns_progress-pending e op w e.dns cs.dns aligned,
              )
              refl,
        ),
        (λ n. same.0 (sym empty ∙ n), λ n. empty ∙ same.1 n),
      )
