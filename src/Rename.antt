-- ===== src/Rename.antt =====
-- internal/core/rename.go: a host is moved to another name in one transaction.
pub mod Moves
pub mod Stuck
use crenel.Prelude.{
  Bool, true, false, not, List, [], ◌∷◌, ◌++◌, ◌||◌, find, is_nil, Option, none, some, Text, codes,
  ◌==◌, text_eq, equal_fold, trim_space, if◌then◌else◌, Result, ok, err, ◌>>=◌, map_err,
}
use crenel.Model.{
  Op, rename, plain_op, auth_detected, Route, unset, LiveEdgeState, has_host, EdgePlan, ChangeSet,
  zero_edge_change,
}
use crenel.Reports.{
  Error, rename_read_failed, rename_hosts_required, rename_same_host, rename_not_exposed,
  rename_target_exists, rename_auth_not_reproducible, ApplyReport, empty_report,
}
use crenel.Engine.{EdgeBinding, Engine, gate_read_only}
use crenel.Chain.{kept_deny}
use crenel.Apply.{Confirm, apply_planned}

-- `findRoute`
unfoldable pub find_route : LiveEdgeState → Text → Option Route
find_route live host = find (λ r. equal_fold r.host host) live.routes

-- the source route with only the hostname changed, and core's metadata cleared
abbrev pub renamed_route : Text → Route → Route
renamed_route new_host src = record {
  host = new_host;
  upstream = record src.upstream { server_name = new_host };
  managed = false;
  ownership = unset;
  chain = none;
}

abbrev pub rename_set : Text → List EdgePlan → ChangeSet
rename_set new_host plans = record {
  op = plain_op rename [] new_host;
  edge = zero_edge_change;
  edges = plans;
  dns = [];
  new_public = new_host ∷ [];
}

module _ {W : Type 0} where
  abbrev pub rename_plan : EdgeBinding W → Text → Route → EdgePlan
  rename_plan b new_host src = record {
    edge = b.name;
    driver = b.provider.name;
    change = kept_deny (renamed_route new_host src ∷ []) (src.host ∷ []);
  }

  -- one edge of the loop
  unfoldable pub rename_edge :
      EdgeBinding W → Text → Text → LiveEdgeState → Result Error (List EdgePlan)
  unfolding find_route
  rename_edge b old_host new_host live = elim (find_route live old_host) [
    | none ↦ ok []
    | some src ↦
        if has_host live new_host
        then err (rename_target_exists new_host b.name)
        else if src.upstream.auth == auth_detected
        then err (rename_auth_not_reproducible old_host b.name)
        else ok (rename_plan b new_host src ∷ [])
  ]

  -- An edge that serves the old host adds one plan, so `foundOld` says that there is a plan.
  unfoldable pub rename_edges :
      List (EdgeBinding W) → Text → Text → W → Result Error (List EdgePlan)
  unfolding rename_edge
  rename_edges [] old_host new_host w = ok []
  rename_edges (b ∷ bs) old_host new_host w = do
    live ← map_err (rename_read_failed b.name) (b.provider.read_live_state w)
    first ← rename_edge b old_host new_host live
    rest ← rename_edges bs old_host new_host w
    ok (first ++ rest)

  -- `PlanRename`
  unfoldable pub plan_rename : Engine W → Text → Text → W → Result Error ChangeSet
  unfolding rename_edges
  plan_rename e old_name new_name w =
      let old_host = trim_space old_name in
      let new_host = trim_space new_name in
      if old_host == [] || new_host == []
      then err rename_hosts_required
      else if equal_fold old_host new_host
      then err (rename_same_host old_host)
      else do
        plans ← rename_edges e.edges old_host new_host w
        if is_nil plans then err (rename_not_exposed old_host) else ok (rename_set new_host plans)

  -- `Rename`
  unfoldable pub rename_host : Engine W → Text → Text → Confirm → W → W × ApplyReport × Option Error
  rename_host e old_name new_name confirm w =
      let op = plain_op rename [] (trim_space new_name) in
      elim (gate_read_only e (codes "rename")) [
        | err x ↦ (w, empty_report op, some x)
        | ok u ↦ elim (plan_rename e old_name new_name w) [
          | err x ↦ (w, empty_report op, some x)
          | ok cs ↦ apply_planned e cs.op cs confirm w
        ]
      ]
