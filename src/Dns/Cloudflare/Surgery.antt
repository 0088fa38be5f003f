-- ===== src/Dns/Cloudflare/Surgery.antt =====
-- internal/drivers/dns/cloudflare/cloudflare.go: the change that `Diff` computes from a listing of the
-- zone.
use crenel.Prelude.{
  suc, List, [], ◌∷◌, ◌++◌, map, equal_fold, length, if◌then◌else◌, Result, ok, err, ◌>>=◌, ◌>>◌,
}
use crenel.Model.{Record, DnsChange, Verb, expose, unexpose, rename}
use crenel.Dns.Cloudflare.Records.{
  CfRecord, Config, CfError, partition, guard, to_model, render_preview, foreign_conflict,
  many_owned, unknown_verb,
}

unfoldable pub guard_all : Config → List Record → Result CfError (Unit {0})
guard_all cfg [] = ok tt
guard_all cfg (r ∷ rs) = guard cfg r.name >> guard_all cfg rs

-- the record that an expose adds, by what is ours and what is foreign at its name
abbrev pub addition : Record → List CfRecord × List CfRecord → Result CfError (List Record)
addition want ([], []) = ok (want ∷ [])
addition want ([], f ∷ foreign) = err (foreign_conflict want (map (λ r. r.content) (f ∷ foreign)))
addition want (o ∷ [], foreign) = if equal_fold o.content want.value then ok [] else ok (want ∷ [])
addition want (o ∷ p ∷ ours, foreign) = err (many_owned want (suc (suc (length ours))))

unfoldable pub additions : Config → List CfRecord → List Record → Result CfError (List Record)
additions cfg all [] = ok []
additions cfg all (want ∷ wants) =
    addition want (partition cfg all want.name want.record_type) >>= λ add.
    additions cfg all wants >>= λ rest. ok (add ++ rest)

unfoldable pub removals : Config → List CfRecord → List Record → List Record
removals cfg all [] = []
removals cfg all (want ∷ wants) =
    map (λ o. to_model o cfg.scope) (partition cfg all want.name want.record_type).0
    ++ removals cfg all wants

-- the change with its preview
abbrev pub rendered_change : Config → List Record → List Record → List Record → DnsChange
rendered_change cfg managed add remove =
    let change : DnsChange = record {
      scope = cfg.scope;
      add = add;
      remove = remove;
      managed = managed;
      rendered = [];
    } in
    record change { rendered = render_preview change }

unfoldable pub change_for : Config → List CfRecord → Verb → List Record → Result CfError DnsChange
change_for cfg all expose desired =
    additions cfg all desired >>= λ add. ok (rendered_change cfg desired add [])
change_for cfg all unexpose desired = ok (rendered_change cfg desired [] (removals cfg all desired))
change_for cfg all rename desired = err unknown_verb
