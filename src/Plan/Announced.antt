-- ===== src/Plan/Announced.antt =====
-- The names that the records and the routes of a change carry.
use crenel.Prelude.{
  arith, subst, sym, Bool, true, false, ◌≡◌, ◌↔◌, List, [], ◌∷◌, map, inl, inr, In, here, there,
  In-append, In-append_right, In-append_cases, In-cons_cases, Bool-cases, Text, ◌==◌, if◌then◌else◌,
}
use crenel.Model.{scope_eq, public, is_mesh_grant, Route, Record, DnsChange, EdgePlan}
use crenel.Plan.{public_record_names, data_plane_hosts, edge_hosts}

-- A record that a public change adds, by its name.
abbrev AddsPublic : List DnsChange → Text → Type 0
AddsPublic ds x =
    (d : DnsChange) × (r : Record) × In d ds × (d.scope ≡ public) × In r d.add × (x ≡ r.name)

-- A route that carries traffic, by its host.
abbrev Carries : List Route → Text → Type 0
Carries rs x = (r : Route) × In r rs × (is_mesh_grant r.upstream.mode ≡ false) × (x ≡ r.host)

abbrev AddsRoute : List EdgePlan → Text → Type 0
AddsRoute ps x = (p : EdgePlan) × In p ps × Carries p.change.add_routes x

abbrev pub Announces : Bool → List EdgePlan → List DnsChange → Text → Type 0
Announces true ps ds x = AddsPublic ds x
Announces false ps ds x = AddsRoute ps x

names-In :
    (rs : List Record) (x : Text)
    → In x (map (λ r. r.name) rs)
    → (r : Record) × In r rs × (x ≡ r.name)
names-In [] x m = elim m [ ]
names-In (r ∷ rs) x m = elim (In-cons_cases m) [
  | inl e ↦ (r, here, e)
  | inr k ↦ let (s, n, e) = names-In rs x k in (s, there n, e)
]

In-names : {r : Record} {rs : List Record} → In r rs → In r.name (map (λ r. r.name) rs)
In-names here = here
In-names (there m) = there (In-names m)

-- the names that one change contributes
abbrev change_names : DnsChange → List Text
change_names d = if d.scope == public then map (λ r. r.name) d.add else []

change_names-In :
    (d : DnsChange) (x : Text)
    → In x (change_names d)
    → (d.scope ≡ public) × ((r : Record) × In r d.add × (x ≡ r.name))
change_names-In d x m = elim (Bool-cases (d.scope == public)) [
  | inl e ↦ (ground arith, names-In d.add x (rw e at m))
  | inr e ↦ let none_ : In x [] = rw e at m in elim none_ [ ]
]

In-change_names :
    (d : DnsChange) (r : Record) → d.scope ≡ public → In r d.add → In r.name (change_names d)
In-change_names d r e m = let t : (d.scope == public) ≡ true = ground arith in rw t (In-names m)

public_record_names-In :
    (ds : List DnsChange) (x : Text) → In x (public_record_names ds) → AddsPublic ds x
unfolding public_record_names
public_record_names-In [] x m = elim m [ ]
public_record_names-In (d ∷ ds) x m = elim (In-append_cases (change_names d) m) [
  | inl k ↦ let (e, found) = change_names-In d x k in let (r, n, f) = found in (d, r, here, e, n, f)
  | inr k ↦ let (c, r, k', e, n, f) = public_record_names-In ds x k in (c, r, there k', e, n, f)
]

In-public_record_names :
    {d : DnsChange} {ds : List DnsChange} (r : Record)
    → In d ds
    → d.scope ≡ public
    → In r d.add
    → In r.name (public_record_names ds)
unfolding public_record_names
In-public_record_names {d} r (here {xs = ds}) e n =
    In-append (public_record_names ds) (In-change_names d r e n)
In-public_record_names r (there {y = c} m) e n =
    In-append_right (change_names c) (In-public_record_names r m e n)

data_plane_hosts-In : (rs : List Route) (x : Text) → In x (data_plane_hosts rs) → Carries rs x
unfolding data_plane_hosts
data_plane_hosts-In [] x m = elim m [ ]
data_plane_hosts-In (r ∷ rs) x m = elim (Bool-cases (is_mesh_grant r.upstream.mode)) [
  | inl e ↦ let (s, n, g, f) = data_plane_hosts-In rs x (rw e at m) in (s, there n, g, f)
  | inr e ↦
      let kept : In x (r.host ∷ data_plane_hosts rs) = rw e at m in
      elim (In-cons_cases kept) [
        | inl f ↦ (r, here, e, f)
        | inr k ↦ let (s, n, g, f) = data_plane_hosts-In rs x k in (s, there n, g, f)
      ]
]

In-data_plane_hosts :
    {r : Route} {rs : List Route}
    → In r rs
    → is_mesh_grant r.upstream.mode ≡ false
    → In r.host (data_plane_hosts rs)
unfolding data_plane_hosts
In-data_plane_hosts here e = rw e here
In-data_plane_hosts (there {y = s} m) e = elim (Bool-cases (is_mesh_grant s.upstream.mode)) [
  | inl f ↦ rw f (In-data_plane_hosts m e)
  | inr f ↦ rw f (there (In-data_plane_hosts m e))
]

edge_hosts-In : (ps : List EdgePlan) (x : Text) → In x (edge_hosts ps) → AddsRoute ps x
unfolding edge_hosts
edge_hosts-In [] x m = elim m [ ]
edge_hosts-In (p ∷ ps) x m = elim (In-append_cases (data_plane_hosts p.change.add_routes) m) [
  | inl k ↦ (p, here, data_plane_hosts-In p.change.add_routes x k)
  | inr k ↦ let (q, n, c) = edge_hosts-In ps x k in (q, there n, c)
]

In-edge_hosts :
    {p : EdgePlan} {r : Route} {ps : List EdgePlan}
    → In p ps
    → In r p.change.add_routes
    → is_mesh_grant r.upstream.mode ≡ false
    → In r.host (edge_hosts ps)
unfolding edge_hosts
In-edge_hosts (here {xs = ps}) n e = In-append (edge_hosts ps) (In-data_plane_hosts n e)
In-edge_hosts (there {y = q} m) n e =
    In-append_right (data_plane_hosts q.change.add_routes) (In-edge_hosts m n e)

In-Carries :
    {ps : List EdgePlan} {x : Text} (p : EdgePlan)
    → In p ps
    → Carries p.change.add_routes x
    → In x (edge_hosts ps)
In-Carries {ps} p m (r, n, e, f) =
    subst (λ (y : Text). In y (edge_hosts ps)) (sym f) (In-edge_hosts m n e)

-- the list that is announced, before it is made unique
abbrev pub announced_names : Bool → List EdgePlan → List DnsChange → List Text
announced_names true ps ds = public_record_names ds
announced_names false ps ds = edge_hosts ps

pub announced_iff :
    (public_dns : Bool) (ps : List EdgePlan) (ds : List DnsChange) (x : Text)
    → In x (announced_names public_dns ps ds) ↔ Announces public_dns ps ds x
announced_iff true ps ds x = (
  public_record_names-In ds x,
  λ (d, r, m, e, n, f).
      subst (λ (y : Text). In y (public_record_names ds)) (sym f) (In-public_record_names r m e n),
)
announced_iff false ps ds x = (edge_hosts-In ps x, λ (p, m, c). In-Carries p m c)
