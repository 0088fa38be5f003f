-- ===== src/Model/Changes.antt =====
-- internal/model/model.go: `Record`, `EdgeChange`, `DNSChange`, `EdgePlan` and `ChangeSet`.
use crenel.Prelude.{ℤ, Bool, false, ◌&&◌, List, [], Text, is_nil, all, to_lower, ◌==◌, text_eq}
use crenel.Model.Ops.{Op, Scope, scope_eq}
use crenel.Model.Routes.{Route}

-- `record_type` is the field `Type`.
pub record Record : Type 0 where
  pub name : Text
  pub record_type : Text
  pub value : Text
  pub scope : Scope
  pub ttl : ℤ
  pub proxied : Bool

-- `Key` is the text `scope/type/lower(name)`. A scope and a type hold no slash, so two texts are
-- equal exactly if the three parts are.
unfoldable pub same_key : Record → Record → Bool
same_key a b =
    a.scope == b.scope && a.record_type == b.record_type && to_lower a.name == to_lower b.name

pub record EdgeChange : Type 0 where
  pub add_routes : List Route
  pub remove_hosts : List Text
  pub deny_catch_all_will_be_present : Bool

unfoldable pub edge_change_empty : EdgeChange → Bool
edge_change_empty c = is_nil c.add_routes && is_nil c.remove_hosts

pub record DnsChange : Type 0 where
  pub scope : Scope
  pub add : List Record
  pub remove : List Record
  pub managed : List Record
  pub rendered : Text

unfoldable pub dns_change_empty : DnsChange → Bool
dns_change_empty d = is_nil d.add && is_nil d.remove

-- `DNSChange{Scope: scope}`
abbrev pub no_dns_change : Scope → DnsChange
no_dns_change scope = record { scope = scope; add = []; remove = []; managed = []; rendered = [] }

pub record EdgePlan : Type 0 where
  pub edge : Text
  pub driver : Text
  pub change : EdgeChange

pub record ChangeSet : Type 0 where
  pub op : Op
  pub edge : EdgeChange
  pub edges : List EdgePlan
  pub dns : List DnsChange
  pub new_public : List Text

-- the zero value of `EdgeChange`
abbrev pub zero_edge_change : EdgeChange
zero_edge_change = record {
  add_routes = [];
  remove_hosts = [];
  deny_catch_all_will_be_present = false;
}

unfoldable pub change_set_empty : ChangeSet → Bool
unfolding edge_change_empty dns_change_empty
change_set_empty c =
    edge_change_empty c.edge
    && all (λ p. edge_change_empty p.change) c.edges
    && all dns_change_empty c.dns
