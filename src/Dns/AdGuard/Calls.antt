-- ===== src/Dns/AdGuard/Calls.antt =====
-- internal/drivers/dns/adguard/adguard.go: the calls at a resolver that answers.
use crenel.Prelude.{
  ◌≡◌, refl, sym, ap, ◌∙◌, subst, true, false, inl, inr, List, [], ◌∷◌, arith, text_eq, nat_eq,
  Result, ok,
}
use crenel.Model.{Record, DnsChange, Op}
use crenel.Effects.{Call, next, next-ok, lift, done}
use crenel.Dns.AdGuard.Rewrites.{Rewrite, AgError, guard, guard_all, zone_records, change_for}
use crenel.Dns.AdGuard.Driver.{Driver, Request, post, diff, live_records, read_post, post_path}
use crenel.Dns.AdGuard.Resolver.{Resolver, Answers, Posted, is_ok}

module _ {W : Type 0} (d : Driver W) (resolver : Resolver d.doer) (answers : Answers resolver) where
  -- A call that returned a value and left these rewrites
  pub record Gives {A : Type 0} (o : W × Result AgError A) (a : A) (rs : List Rewrite)
      : Type 0 where
    pub returns : o.1 ≡ ok a
    pub leaves : resolver.rewrites o.0 ≡ rs

  pub next-Gives :
      {A B : Type 0} (k : A → Call W AgError B) (o : W × Result AgError A) {a : A} {b : B}
      {rs ts : List Rewrite}
      → Gives o a rs
      → Gives (k a o.0) b ts
      → Gives (next k o) b ts
  next-Gives {A} {B} k o {a} {b} {rs} {ts} f g =
      subst (λ (out : W × Result AgError B). Gives out b ts) (sym (next-ok k o f.returns)) g

  live_records-Gives :
      (w : W)
      → Gives (live_records d w) (zone_records d.cfg (resolver.rewrites w)) (resolver.rewrites w)
  unfolding live_records
  live_records-Gives w = record { returns = answers.listed d.cfg w; leaves = resolver.lists w }

  pub diff-Gives :
      (op : Op) (want : Record) (w : W) (change : DnsChange)
      → guard d.cfg want.name ≡ ok tt
      → change_for d.cfg (zone_records d.cfg (resolver.rewrites w)) op.verb (want ∷ []) ≡ ok change
      → Gives (diff d op (want ∷ []) w) change (resolver.rewrites w)
  unfolding diff guard_all
  diff-Gives op want w change guarded e =
      let live = live_records-Gives w in
      rw guarded (
        next-Gives (λ rs. lift (change_for d.cfg rs op.verb (want ∷ []))) (live_records d w) live
          (record { returns = e; leaves = live.leaves }))

  pub post-Gives :
      (q : Request) (w : W) (rs : List Rewrite)
      → read_post (post_path q) (d.doer q w).1 ≡ ok tt
      → Posted d.doer resolver.rewrites q w rs
      → Gives (post d q w) tt rs
  unfolding post
  post-Gives q w rs answered h = record {
    returns = answered;
    leaves = elim h [
      | inl made ↦ made
      | inr k ↦ let never : true ≡ false = sym (ap is_ok answered) ∙ k.1 in ground arith
    ];
  }

  pub once-Gives :
      (o : W × Result AgError (Unit {0})) {ts : List Rewrite}
      → Gives o tt ts
      → Gives (next (λ _. done tt) o) tt ts
  once-Gives o g = next-Gives (λ _. done tt) o g (record { returns = refl; leaves = g.leaves })
