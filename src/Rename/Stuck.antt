-- ===== src/Rename/Stuck.antt =====
-- A rename at an engine with a DNS provider for the new host.
use crenel.Prelude.{
  arith, ap, subst, sym, true, false, ◌≡◌, refl, [], inl, inr, In, Bool-cases, Result-cases, none,
  Text, codes, trim_space, ok, text_eq, List,
}
use crenel.Model.{Op, Scope, rename, plain_op, ChangeSet}
use crenel.Ports.{DnsProvider}
use crenel.Engine.{Engine, gate_read_only, scope_selected, dns_covers_host}
use crenel.Apply.{Flow, Confirm, apply_planned}
use crenel.Verify.{desired_or_nil}
use crenel.Apply.Verified.{apply_planned-verified}
use crenel.Verify.Mirror.{no_rename}
use crenel.Rename.{plan_rename, rename_edges, rename_host}

selects_all : (scopes : List Scope) (s : Scope) → scopes ≡ [] → scope_selected scopes s ≡ true
unfolding scope_selected
selects_all scopes s h = ground arith

module _ {W : Type 0} where
  pub plan_rename-op :
      (e : Engine W) (old_name new_name : Text) (w : W) (cs : ChangeSet)
      → plan_rename e old_name new_name w ≡ ok cs
      → cs.op ≡ plain_op rename [] (trim_space new_name)
  unfolding plan_rename
  plan_rename-op e old_name new_name w cs h =
      elim (Result-cases (rename_edges e.edges (trim_space old_name) (trim_space new_name) w)) [
        | inl (plans, made) ↦ ground arith
        | inr (x, failed) ↦ absurd (ground arith)
      ]

  apply_planned-stuck :
      (e : Engine W) (op : Op) (cs : ChangeSet) (confirm : Confirm) (w : W) (p : DnsProvider W)
      → In p e.dns
      → op.verb ≡ rename
      → scope_selected op.scopes p.scope ≡ true
      → dns_covers_host p op.host ≡ true
      → (apply_planned e op cs confirm w).2 ≡ none
      → (apply_planned e op cs confirm w).1.applied ≡ false
  apply_planned-stuck e op cs confirm w p m renaming appointed covered fine =
      elim (Bool-cases (apply_planned e op cs confirm w).1.applied) [
        | inr unapplied ↦ unapplied
        | inl applied ↦
            let (v, edges, dns, confirmed, rest) =
              apply_planned-verified e op cs confirm w fine applied in
            let (live, reads, holds) = dns p m appointed covered in
            absurd (no_rename op.verb (desired_or_nil p op) live renaming holds)
      ]

  -- What a flow that is stuck never is.
  abbrev Idle : Flow W → Type 0
  Idle f = f.2 ≡ none → f.1.applied ≡ false

  rename_set-Idle :
      (e : Engine W) (op : Op) (host : Text) (cs : ChangeSet) (confirm : Confirm) (w : W)
      (p : DnsProvider W)
      → In p e.dns
      → op ≡ plain_op rename [] host
      → dns_covers_host p host ≡ true
      → Idle (apply_planned e op cs confirm w)
  rename_set-Idle e op host cs confirm w p m same covered =
      apply_planned-stuck e op cs confirm w p m (ap (λ (o : Op). o.verb) same)
        (selects_all op.scopes p.scope (ap (λ (o : Op). o.scopes) same))
        (subst (λ h. dns_covers_host p h ≡ true) (sym (ap (λ (o : Op). o.host) same)) covered)

  -- If a DNS provider of the engine has a zone that covers the new host, then no rename to that host
  -- is ever both applied and free of error.
  pub rename_host-stuck :
      (e : Engine W) (old_name new_name : Text) (confirm : Confirm) (w : W) (p : DnsProvider W)
      → In p e.dns
      → dns_covers_host p (trim_space new_name) ≡ true
      → (rename_host e old_name new_name confirm w).2 ≡ none
      → (rename_host e old_name new_name confirm w).1.applied ≡ false
  unfolding rename_host
  rename_host-stuck e old_name new_name confirm w p m covered =
      elim (Result-cases (gate_read_only e (codes "rename")))
        as (λ _. Idle (rename_host e old_name new_name confirm w)) [
          | inr (x, refused) ↦ rw (refused, rename_host) (λ _. refl)
          | inl (u, open_) ↦
              elim (Result-cases (plan_rename e old_name new_name w))
                as (λ _. Idle (rename_host e old_name new_name confirm w)) [
                  | inr (x, failed) ↦ rw (open_, failed, rename_host) (λ _. refl)
                  | inl (cs, made) ↦
                      rw (open_, made, rename_host)
                        (rename_set-Idle e cs.op (trim_space new_name) cs confirm w p m
                          (plan_rename-op e old_name new_name w cs made) covered)
                ]
        ]
