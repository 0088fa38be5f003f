-- ===== src/Dns/Cloudflare/Flow.antt =====
-- internal/core/apply.go over internal/drivers/dns/cloudflare/cloudflare.go: what a flow of core does
-- to the records of others.
use crenel.Prelude.{
  ◌≡◌, refl, sym, subst, List, ◌∷◌, ◌++◌, Text, All, In-All, All-In, All-append, Result, ok, err,
}
use crenel.Model.{Op, ChangeSet}
use crenel.Ports.{DnsProvider}
use crenel.Engine.{EdgeBinding, Engine}
use crenel.Effects.{IsPreorder}
use crenel.Apply.{Confirm, apply_planned}
use crenel.Apply.Providers.{EdgeMoves, DnsMoves, Framed}
use crenel.Apply.Frame.{apply_planned-Moves}
use crenel.Dns.Cloudflare.Records.{CfError}
use crenel.Dns.Cloudflare.Api.{Driver, Session}
use crenel.Dns.Cloudflare.Service.{Service}
use crenel.Dns.Cloudflare.Driver.{provider, reported, apply}
use crenel.Dns.Cloudflare.Listing.{records_of, Same}
use crenel.Dns.Cloudflare.Surgical.{Surgical, Surgical-same, Surgical-trans, IdsDistinct}
use crenel.Dns.Cloudflare.Foreign.{apply-Surgical}
use crenel.Dns.Cloudflare.Ids.{apply-IdsDistinct}

module _ {W : Type 0} (d : Driver W) (service : Service d.doer) where
  -- From distinct ids, a surgical change to distinct ids
  abbrev Careful : Session W → Session W → Type 0
  Careful s t =
      IdsDistinct (records_of d service s)
      → Surgical (records_of d service s) (records_of d service t)
        × IdsDistinct (records_of d service t)

  Careful-IsPreorder : IsPreorder Careful
  Careful-IsPreorder = record {
    reflexive = λ s h. (Surgical-same (records_of d service s), h);
    transitive = λ s t u f g h.
        let (first, ids) = f h in let (then_, ids') = g ids in (Surgical-trans first then_, ids');
  }

  Same-Careful : (s t : Session W) → Same d service s t → Careful s t
  Same-Careful s t e h = (
    subst (Surgical (records_of d service s)) (sym e) (Surgical-same (records_of d service s)),
    subst IdsDistinct (sym e) h,
  )

  reported-state :
      (text : CfError → Text) (o : Session W × Result CfError (Unit {0}))
      → (reported text o).0 ≡ o.0
  reported-state text (s, ok u) = refl
  reported-state text (s, err e) = refl

  provider-Careful : (text : CfError → Text) → DnsMoves Careful (provider text d)
  unfolding provider
  provider-Careful text c s h =
      rw (reported-state text (apply d c s))
        (apply-Surgical d service c s h, apply-IdsDistinct d service c s h)

  calm_edge : (b : EdgeBinding (Session W)) → EdgeMoves (Same d service) b → EdgeMoves Careful b
  calm_edge b h = (
    λ cs w. Same-Careful w (b.provider.apply cs w).0 (h.0 cs w),
    λ f found w. Same-Careful w (f w).0 (h.1 f found w),
  )

  calm_dns : (q : DnsProvider (Session W)) → DnsMoves (Same d service) q → DnsMoves Careful q
  calm_dns q h = λ c w. Same-Careful w (q.apply c w).0 (h c w)

  calm_providers :
      (qs : List (DnsProvider (Session W)))
      → All (DnsMoves (Same d service)) qs
      → All (DnsMoves Careful) qs
  calm_providers qs quiet =
      In-All (DnsMoves Careful) qs (λ q m. calm_dns q (All-In (DnsMoves (Same d service)) m quiet))

  -- A flow of core with this driver anywhere among the DNS providers, where the edges and the
  -- providers before and after it leave the records of the service alone, however it ends and
  -- whatever it rolls back: where ids are distinct, every record of others is as it was, and every
  -- record that was not there before is marked.
  pub flow-Surgical :
      (text : CfError → Text) (e : Engine (Session W))
      (before after : List (DnsProvider (Session W))) (op : Op) (cs : ChangeSet) (confirm : Confirm)
      (s : Session W)
      → e.dns ≡ before ++ (provider text d ∷ after)
      → All (EdgeMoves (Same d service)) e.edges
      → All (DnsMoves (Same d service)) before
      → All (DnsMoves (Same d service)) after
      → IdsDistinct (records_of d service s)
      → Surgical (records_of d service s) (records_of d service (apply_planned e op cs confirm s).0)
  flow-Surgical text e before after op cs confirm s dns edges calm calm_after ids =
      let framed : Framed Careful e = (
        In-All (EdgeMoves Careful) e.edges
            (λ b m. calm_edge b (All-In (EdgeMoves (Same d service)) m edges)),
        subst (All (DnsMoves Careful)) (sym dns) (
            All-append (DnsMoves Careful) before (provider text d ∷ after)
              (calm_providers before calm)
              (provider-Careful text, calm_providers after calm_after)),
      ) in
      (apply_planned-Moves Careful Careful-IsPreorder e op cs confirm s framed ids).0
