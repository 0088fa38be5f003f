-- ===== src/Plan/Parts.antt =====
-- What a plan that was made consists of: the parts that `Plan` computes, one after the other.
use crenel.Prelude.{arith, ◌≡◌, refl, subst, Result, ok, bind-eq-ok}
use crenel.Model.{Op, ChangeSet, zero_edge_change}
use crenel.Reports.{Error}
use crenel.Engine.{Engine}
use crenel.Plan.{
  check_auth, check_scopes, check_participants, plan_edges, plan_dns, compute_new_public, plan,
}

ok_value : {a b : ChangeSet} → ◌≡◌ {A = Result Error ChangeSet} (ok a) (ok b) → a ≡ b
ok_value h = ground arith

module _ {W : Type 0} where
  pub record Parts (e : Engine W) (op : Op) (w : W) (cs : ChangeSet) : Type 0 where
    pub auth_checked : check_auth op ≡ ok tt
    pub scopes_checked : check_scopes e op ≡ ok tt
    pub edges_planned : plan_edges e e.edges op w ≡ ok cs.edges
    pub participants_checked : check_participants op cs.edges ≡ ok tt
    pub dns_planned : plan_dns e op w e.dns ≡ ok cs.dns
    pub op_kept : cs.op ≡ op
    pub no_edge : cs.edge ≡ zero_edge_change
    pub announced : cs.new_public ≡ compute_new_public e op cs.edges cs.dns

  pub plan-Parts :
      (e : Engine W) (op : Op) (w : W) {cs : ChangeSet} → plan e op w ≡ ok cs → Parts e op w cs
  unfolding plan
  plan-Parts e op w {cs} h =
      let (u, au, h1) = bind-eq-ok (check_auth op) _ h in
      let (v, sc, h2) = bind-eq-ok (check_scopes e op) _ h1 in
      let (plans, pe, h3) = bind-eq-ok (plan_edges e e.edges op w) _ h2 in
      let (x, pa, h4) = bind-eq-ok (check_participants op plans) _ h3 in
      let (changes, pd, h5) = bind-eq-ok (plan_dns e op w e.dns) _ h4 in
      subst (Parts e op w) (ok_value h5) (record {
        auth_checked = au;
        scopes_checked = sc;
        edges_planned = pe;
        participants_checked = pa;
        dns_planned = pd;
        op_kept = refl;
        no_edge = refl;
        announced = refl;
      })
