-- ===== src/Dns/AdGuard/Restore.antt =====
-- internal/drivers/dns/adguard/adguard.go: an unexpose takes back what an expose did.
use crenel.Prelude.{
  ◌≡◌, refl, ap, ◌∙◌, subst, true, List, [], ◌∷◌, ◌++◌, Text, arith, text_eq, nat_eq, ok, some,
  none, equal_fold_refl,
}
use crenel.Model.{Record, Op, expose, unexpose}
use crenel.Effects.{Call, next, done, ◌>>=◌}
use crenel.Dns.AdGuard.Rewrites.{
  Rewrite, Config, AgError, guard, under_zone, live_by_name, zone_records, record_for, change_for,
  additions, removals, rendered_change,
}
use crenel.Dns.AdGuard.Driver.{Driver, add_rewrite, delete_rewrite, rewrite_of, post, apply, diff}
use crenel.Dns.AdGuard.Resolver.{Resolver, Answers, without}
use crenel.Dns.AdGuard.Names.{zone_records-append, live_by_name-append, without-append}
use crenel.Dns.AdGuard.Calls.{Gives, next-Gives, diff-Gives, post-Gives, once-Gives}

pub guard-under_zone :
    (cfg : Config) (name : Text) → guard cfg name ≡ ok tt → under_zone name cfg.zone ≡ true
unfolding guard
guard-under_zone cfg name h = ground arith

-- the change of an expose of a name that no rewrite has
change_for_expose :
    (cfg : Config) (live : List Record) (want : Record)
    → live_by_name live want.name ≡ none
    → change_for cfg live expose (want ∷ []) ≡ ok (rendered_change cfg (want ∷ []) [])
unfolding change_for additions
change_for_expose cfg live want h = rw h refl

-- and of an unexpose of one that has the value
change_for_unexpose :
    (cfg : Config) (live : List Record) (want : Record)
    → live_by_name live want.name ≡ some want
    → change_for cfg live unexpose (want ∷ []) ≡ ok (rendered_change cfg [] (want ∷ []))
unfolding change_for removals
change_for_unexpose cfg live want h = rw (h, equal_fold_refl want.value) refl

-- `Diff` and `Apply` of one op
abbrev pub perform : {W : Type 0} → Driver W → Op → Record → Call W AgError (Unit {0})
perform d op want = diff d op (want ∷ []) >>= apply d

module _ {W : Type 0} (d : Driver W) (resolver : Resolver d.doer) (answers : Answers resolver) where
  apply_add-Gives :
      (want : Record) (w : W)
      → guard d.cfg want.name ≡ ok tt
      → Gives d resolver answers
          (apply d (rendered_change d.cfg (want ∷ []) []) w)
          tt
          (resolver.rewrites w ++ (rewrite_of want ∷ []))
  unfolding apply
  apply_add-Gives want w guarded = rw guarded (
      once-Gives d resolver answers (post d (add_rewrite (rewrite_of want)) w) (
        post-Gives d resolver answers (add_rewrite (rewrite_of want)) w _
          (answers.added (rewrite_of want) w) (resolver.adds (rewrite_of want) w)))

  apply_remove-Gives :
      (want : Record) (w : W)
      → guard d.cfg want.name ≡ ok tt
      → Gives d resolver answers
          (apply d (rendered_change d.cfg [] (want ∷ [])) w)
          tt
          (without (rewrite_of want) (resolver.rewrites w))
  unfolding apply
  apply_remove-Gives want w guarded = rw guarded (
      once-Gives d resolver answers
        (next (λ _. done tt) (post d (delete_rewrite (rewrite_of want)) w))
        (once-Gives d resolver answers (post d (delete_rewrite (rewrite_of want)) w) (
          post-Gives d resolver answers (delete_rewrite (rewrite_of want)) w _
            (answers.deleted (rewrite_of want) w) (resolver.deletes (rewrite_of want) w))))

  perform_expose-Gives :
      (up : Op) (want : Record) (w : W)
      → up.verb ≡ expose
      → guard d.cfg want.name ≡ ok tt
      → live_by_name (zone_records d.cfg (resolver.rewrites w)) want.name ≡ none
      → Gives d resolver answers
          (perform d up want w)
          tt
          (resolver.rewrites w ++ (rewrite_of want ∷ []))
  perform_expose-Gives up want w verb guarded absent =
      let planned =
        diff-Gives d resolver answers up want w (rendered_change d.cfg (want ∷ []) []) guarded (
          rw verb
            (change_for_expose d.cfg (zone_records d.cfg (resolver.rewrites w)) want absent)) in
      next-Gives d resolver answers (apply d) (diff d up (want ∷ []) w) planned (
        subst
          (λ (rs : List Rewrite).
            Gives d resolver answers
              (apply d (rendered_change d.cfg (want ∷ []) []) (diff d up (want ∷ []) w).0) tt
              (rs ++ (rewrite_of want ∷ [])))
          planned.leaves (apply_add-Gives want (diff d up (want ∷ []) w).0 guarded))

  perform_unexpose-Gives :
      (down : Op) (want : Record) (w : W)
      → down.verb ≡ unexpose
      → guard d.cfg want.name ≡ ok tt
      → live_by_name (zone_records d.cfg (resolver.rewrites w)) want.name ≡ some want
      → Gives d resolver answers
          (perform d down want w)
          tt
          (without (rewrite_of want) (resolver.rewrites w))
  perform_unexpose-Gives down want w verb guarded present =
      let planned =
        diff-Gives d resolver answers down want w (rendered_change d.cfg [] (want ∷ [])) guarded (
          rw verb
            (change_for_unexpose d.cfg (zone_records d.cfg (resolver.rewrites w)) want present)) in
      next-Gives d resolver answers (apply d) (diff d down (want ∷ []) w) planned (
        subst
          (λ (rs : List Rewrite).
            Gives d resolver answers
              (apply d (rendered_change d.cfg [] (want ∷ [])) (diff d down (want ∷ []) w).0) tt
              (without (rewrite_of want) rs))
          planned.leaves (apply_remove-Gives want (diff d down (want ∷ []) w).0 guarded))

  -- At a resolver that answers, for a name that the guard lets through and no rewrite of the zone
  -- has: planning and applying an expose of a record of the driver adds its rewrite at the end of the
  -- list, and an unexpose of it then leaves the list as it was before, both without an error.
  pub expose-unexpose :
      (up down : Op) (name answer : Text) (w : W)
      → up.verb ≡ expose
      → down.verb ≡ unexpose
      → guard d.cfg name ≡ ok tt
      → live_by_name (zone_records d.cfg (resolver.rewrites w)) name ≡ none
      → ((perform d up (record_for d.cfg name answer) w).1 ≡ ok tt)
        × (resolver.rewrites (perform d up (record_for d.cfg name answer) w).0
            ≡ resolver.rewrites w ++ (record { domain = name; answer = answer } ∷ []))
        × ((perform d down
              (record_for d.cfg name answer)
              (perform d up (record_for d.cfg name answer) w).0).1
            ≡ ok tt)
        × (resolver.rewrites
              (perform d down
                (record_for d.cfg name answer)
                (perform d up (record_for d.cfg name answer) w).0).0
            ≡ resolver.rewrites w)
  expose-unexpose up down name answer w expose_ unexpose_ guarded absent =
      let want = record_for d.cfg name answer in
      let rs = resolver.rewrites w in
      let here_ = guard-under_zone d.cfg name guarded in
      let exposed = perform_expose-Gives up want w expose_ guarded absent in
      let u : W = (perform d up want w).0 in
      let present : live_by_name (zone_records d.cfg (resolver.rewrites u)) name ≡ some want =
        rw (exposed.leaves, zone_records-append d.cfg rs (rewrite_of want) here_)
          (live_by_name-append (zone_records d.cfg rs) want) in
      let taken = perform_unexpose-Gives down want u unexpose_ guarded present in
      (
        exposed.returns,
        exposed.leaves,
        taken.returns,
        taken.leaves
            ∙ ap (without (rewrite_of want)) exposed.leaves
            ∙ without-append d.cfg rs (rewrite_of want) here_ absent,
      )
