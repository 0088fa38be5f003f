-- ===== src/Declarative/Planning.antt =====
-- internal/core/declarative.go: `planDeclarative`.
use crenel.Prelude.{
  Bool, true, not, ◌&&◌, ◌||◌, List, [], ◌∷◌, ◌++◌, map, any, contains, keep_if, Option, none, some,
  Text, ◌==◌, text_eq, to_lower, if◌then◌else◌, Result, ok, err, ◌>>=◌, ◌>>◌, map_err,
}
use crenel.Model.{
  expose, plain_op, scope_eq, Route, LiveEdgeState, Record, same_key, EdgeChange, edge_change_empty,
  zero_edge_change, DnsChange, EdgePlan, validate_auth, AuthUnsupported,
}
use crenel.Reports.{
  Error, auth_unsupported_for_mode, read_edge_failed, exposure_without_host, exposure_refused,
  desired_records_failed, read_live_dns_failed,
}
use crenel.Ports.{DnsProvider}
use crenel.Engine.{
  EdgeBinding, Engine, fronts_service, scope_selected, dns_covers_host, residency_supported,
  service_of,
}
use crenel.Plan.{has_public_dns, public_record_names, edge_hosts}
use crenel.Import.{AdoptCandidate, ImportConflict, sort_texts}
use crenel.Declarative.Exposures.{
  Exposure, Options, DeclarativePlan, Lives, live_at, Placement, satisfied, blocked_by, adopted_as,
  routed, exposure_host, target_edges, place,
}

-- A placement at the edge of a name
abbrev pub Placements : Type 0
Placements = List (Text × Placement)

abbrev pub adoption_of : Placement → List AdoptCandidate
adoption_of satisfied = []
adoption_of (blocked_by c) = []
adoption_of (adopted_as a) = a ∷ []
adoption_of (routed rs) = []

abbrev pub conflict_of : Placement → List ImportConflict
conflict_of satisfied = []
conflict_of (blocked_by c) = c ∷ []
conflict_of (adopted_as a) = []
conflict_of (routed rs) = []

abbrev pub routes_of : Placement → List Route
routes_of satisfied = []
routes_of (blocked_by c) = []
routes_of (adopted_as a) = []
routes_of (routed rs) = rs

unfoldable pub adoptions : Placements → List AdoptCandidate
adoptions [] = []
adoptions ((edge, p) ∷ ps) = adoption_of p ++ adoptions ps

unfoldable pub conflicts : Placements → List ImportConflict
conflicts [] = []
conflicts ((edge, p) ∷ ps) = conflict_of p ++ conflicts ps

-- `edgeChanges[name].AddRoutes`
unfoldable pub routes_at : Text → Placements → List Route
routes_at name [] = []
routes_at name ((edge, p) ∷ ps) =
    let rest = routes_at name ps in if edge == name then routes_of p ++ rest else rest

-- the managed routes that the file does not have
unfoldable pub owned_absent : List Text → List Route → List Text
owned_absent desired [] = []
owned_absent desired (r ∷ rs) =
    let rest = owned_absent desired rs in
    if not r.managed || contains desired (to_lower r.host) then rest else r.host ∷ rest

-- `edgeChanges[name].RemoveHosts`
unfoldable pub removals_at : Text → List (Text × List Text) → List Text
removals_at name [] = []
removals_at name ((edge, hosts) ∷ rest) =
    let others = removals_at name rest in if edge == name then hosts ++ others else others

-- `edgeChanges[name]`
abbrev pub change_at : Placements → List (Text × List Text) → Text → EdgeChange
change_at placed pruned name = record {
  add_routes = routes_at name placed;
  remove_hosts = removals_at name pruned;
  deny_catch_all_will_be_present = true;
}

abbrev pub all_removals : List (Text × List Text) → List Text
all_removals [] = []
all_removals ((edge, hosts) ∷ rest) = hosts ++ all_removals rest

-- `recKeySet` and the look-up in it
unfoldable pub has_key : List Record → Record → Bool
has_key rs d = any (λ r. same_key r d) rs

abbrev pub refused_auth : Text → Result AuthUnsupported (Unit {0}) → Result Error (Unit {0})
refused_auth host (ok u) = ok tt
refused_auth host (err x) = err (exposure_refused host (auth_unsupported_for_mode x))

-- `add` of `declarativeNewPublic`: each host once, whatever its case, and the empty name never
unfoldable pub add_names : List Text → List Text → List Text
add_names out [] = out
add_names out (h ∷ hs) =
    add_names (if h == [] || contains (map to_lower out) (to_lower h) then out else out ++ (h ∷ []))
      hs

module _ {W : Type 0} where
  unfoldable pub read_lives : List (EdgeBinding W) → W → Result Error Lives
  read_lives [] w = ok []
  read_lives (b ∷ bs) w =
      map_err (read_edge_failed b.name) (b.provider.read_live_state w) >>= λ live.
      read_lives bs w >>= λ lives. ok ((b.name, live) ∷ lives)

  -- A target edge is an edge of the engine, so it has a live state.
  abbrev pub place_live :
      Options → EdgeBinding W → Option LiveEdgeState → Exposure → Text → Result Error Placement
  place_live opts b none ex host = ok satisfied
  place_live opts b (some live) ex host = place opts b live ex host

  unfoldable pub place_at :
      Options → Lives → Exposure → Text → List (EdgeBinding W) → Result Error Placements
  place_at opts lives ex host [] = ok []
  place_at opts lives ex host (b ∷ bs) = place_live opts b (live_at lives b.name) ex host >>= λ p.
      place_at opts lives ex host bs >>= λ ps. ok ((b.name, p) ∷ ps)

  -- one exposure, over its target edges
  unfoldable pub place_exposure : Engine W → Options → Lives → Exposure → Result Error Placements
  place_exposure e opts lives ex =
      let host = exposure_host e ex in
      if host == []
      then err (exposure_without_host ex.service)
      else refused_auth host (validate_auth ex.mode ex.auth)
        >> place_at opts lives ex host (target_edges ex e.edges)

  unfoldable pub place_all : Engine W → Options → Lives → List Exposure → Result Error Placements
  place_all e opts lives [] = ok []
  place_all e opts lives (ex ∷ exs) =
      place_exposure e opts lives ex >>= λ ps. place_all e opts lives exs >>= λ qs. ok (ps ++ qs)

  -- `desiredHosts`
  unfoldable pub desired_hosts : Engine W → List Exposure → List Text
  desired_hosts e exs = map (λ ex. to_lower (exposure_host e ex)) exs

  unfoldable pub prune_edges : List Text → Lives → List (EdgeBinding W) → List (Text × List Text)
  prune_edges desired lives [] = []
  prune_edges desired lives (b ∷ bs) = elim (live_at lives b.name) [
    | none ↦ prune_edges desired lives bs
    | some live ↦ (b.name, owned_absent desired live.routes) ∷ prune_edges desired lives bs
  ]

  -- the edge plans, in the order of the edges
  unfoldable pub edge_plans :
      Placements → List (Text × List Text) → List (EdgeBinding W) → List EdgePlan
  edge_plans placed pruned [] = []
  edge_plans placed pruned (b ∷ bs) =
      let change = change_at placed pruned b.name in
      let rest = edge_plans placed pruned bs in
      if edge_change_empty change
      then rest
      else record { edge = b.name; driver = b.provider.name; change = change } ∷ rest

  -- `scopeWanted` and the zone of the provider
  abbrev wanted_by : DnsProvider W → Exposure → Text → Bool
  wanted_by p ex host = scope_selected ex.scopes p.scope && dns_covers_host p host

  abbrev records_for : DnsProvider W → Exposure → Text → Result Error (List Record)
  records_for p ex host =
      map_err (exposure_refused host) (residency_supported p ex.residency)
      >> map_err (desired_records_failed p.name) (
          p.desired_records (record (plain_op expose ex.service host) { residency = ex.residency }))

  -- the records that the exposures want of a provider
  unfoldable pub wanted_records :
      Engine W → DnsProvider W → List Exposure → Result Error (List Record)
  wanted_records e p [] = ok []
  wanted_records e p (ex ∷ exs) =
      (if wanted_by p ex (exposure_host e ex) then records_for p ex (exposure_host e ex) else ok [])
      >>= λ rs. wanted_records e p exs >>= λ rest. ok (rs ++ rest)

  -- a live record that the file does not want, of a service that some edge fronts
  abbrev prunable : Engine W → List Text → List Record → Record → Bool
  prunable e desired wanted r =
      any (λ b. fronts_service b (service_of e r.name)) e.edges
      && not (contains desired (to_lower r.name))
      && not (has_key wanted r)

  abbrev dns_change_of :
      Engine W → Options → DnsProvider W → List Text → List Record → List Record → DnsChange
  dns_change_of e opts p desired live wanted = record {
    scope = p.scope;
    add = keep_if (λ d. not (has_key live d)) wanted;
    remove = if opts.prune then keep_if (prunable e desired wanted) live else [];
    managed = wanted;
    rendered = [];
  }

  unfoldable pub dns_changes :
      Engine W → Options → List Exposure → W → List (DnsProvider W) → Result Error (List DnsChange)
  dns_changes e opts exs w [] = ok []
  dns_changes e opts exs w (p ∷ ps) =
      map_err (read_live_dns_failed p.name) (p.live_records w) >>= λ live.
      wanted_records e p exs >>= λ wanted. dns_changes e opts exs w ps >>= λ rest.
      ok (dns_change_of e opts p (desired_hosts e exs) live wanted ∷ rest)

  -- `declarativeNewPublic`
  unfoldable pub declarative_new_public : Engine W → List EdgePlan → List DnsChange → List Text
  declarative_new_public e plans changes =
      sort_texts
        (add_names [] (if has_public_dns e then public_record_names changes else edge_hosts plans))

  abbrev pub prunes_of : Engine W → Options → List Exposure → Lives → List (Text × List Text)
  prunes_of e opts exs lives =
      if opts.prune then prune_edges (desired_hosts e exs) lives e.edges else []

  -- The zero `Op` of the change has an empty verb; only its empty host and service are read.
  abbrev pub plan_of :
      Engine W → Options → List Exposure → Lives → Placements → List DnsChange → DeclarativePlan
  plan_of e opts exs lives placed changes =
      let pruned = prunes_of e opts exs lives in
      let plans = edge_plans placed pruned e.edges in
      record {
        change = record {
          op = plain_op expose [] [];
          edge = zero_edge_change;
          edges = plans;
          dns = changes;
          new_public = [];
        };
        new_public = declarative_new_public e plans changes;
        adopt = adoptions placed;
        prune = sort_texts (all_removals pruned);
        blocked = conflicts placed;
      }

  -- `planDeclarative`
  unfoldable pub plan_declarative :
      Engine W → List Exposure → Options → W → Result Error DeclarativePlan
  plan_declarative e exs opts w = read_lives e.edges w >>= λ lives.
      place_all e opts lives exs >>= λ placed.
      dns_changes e opts exs w e.dns >>= λ changes. ok (plan_of e opts exs lives placed changes)
