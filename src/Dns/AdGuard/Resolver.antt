-- ===== src/Dns/AdGuard/Resolver.antt =====
-- What the driver relies on of the resolver behind its `Doer`: the list of rewrites, and what each
-- request does to it. A request that is not answered well may have been carried out or not.
use crenel.Prelude.{
  ◌≡◌, ◌⊎◌, Bool, true, false, not, ◌&&◌, List, [], ◌∷◌, ◌++◌, keep_if, ◌==◌, text_eq, Result, ok,
  err,
}
use crenel.Dns.AdGuard.Rewrites.{Rewrite, AgError, Config, zone_records}
use crenel.Dns.AdGuard.Driver.{
  Request, list_rewrites, add_rewrite, delete_rewrite, post_path, read_post, read_list, Doer,
}

abbrev pub same_rewrite : Rewrite → Rewrite → Bool
same_rewrite r x = x.domain == r.domain && x.answer == r.answer

unfoldable pub without : Rewrite → List Rewrite → List Rewrite
without r = keep_if (λ x. not (same_rewrite r x))

abbrev pub is_ok : Result AgError (Unit {0}) → Bool
is_ok (ok u) = true
is_ok (err e) = false

module _ {W : Type 0} where
  abbrev pub after : Doer W → Request → W → W
  after doer q w = (doer q w).0

  -- A post took place, or it did not and was not answered well either.
  abbrev pub Posted : Doer W → (W → List Rewrite) → Request → W → List Rewrite → Type 0
  Posted doer rewrites q w changed =
      (rewrites (after doer q w) ≡ changed)
      ⊎ ((rewrites (after doer q w) ≡ rewrites w)
          × (is_ok (read_post (post_path q) (doer q w).1) ≡ false))

pub record Resolver {W : Type 0} (doer : Doer W) : Type 0 where
  pub rewrites : W → List Rewrite
  pub lists : (w : W) → rewrites (after doer list_rewrites w) ≡ rewrites w
  pub adds : (r : Rewrite) (w : W) → Posted doer rewrites (add_rewrite r) w (rewrites w ++ (r ∷ []))
  pub deletes :
      (r : Rewrite) (w : W) → Posted doer rewrites (delete_rewrite r) w (without r (rewrites w))

-- A resolver that answers every request
pub record Answers {W : Type 0} {doer : Doer W} (resolver : Resolver doer) : Type 0 where
  pub listed :
      (cfg : Config) (w : W)
      → read_list cfg (doer list_rewrites w).1 ≡ ok (zone_records cfg (resolver.rewrites w))
  pub added :
      (r : Rewrite) (w : W)
      → read_post (post_path (add_rewrite r)) (doer (add_rewrite r) w).1 ≡ ok tt
  pub deleted :
      (r : Rewrite) (w : W)
      → read_post (post_path (delete_rewrite r)) (doer (delete_rewrite r) w).1 ≡ ok tt
