-- ===== src/Status.antt =====
-- internal/core/status.go: what is exposed now, with `readAll` of internal/core/chain.go and
-- `resolveIngressKind` of internal/core/engine.go.
pub mod Reads
pub mod Rows
use crenel.Prelude.{
  Bool, true, false, not, ◌&&◌, ◌||◌, List, [], ◌∷◌, map, any, Option, none, some, Text, codes,
  ◌==◌, text_eq, if◌then◌else◌, Result, ok, err, ◌>>=◌, map_err,
}
use crenel.Model.{
  Route, LiveEdgeState, Unparsed, server_not_read, unclassified, IngressKind, unset_ingress,
  public_listener, tunnel, overlay, unknown_ingress,
}
use crenel.Reports.{
  Error, read_edge_failed, read_dns_failed, EdgeStatus, ScopeRecords, StatusReport,
}
use crenel.Ports.{EdgeProvider, DnsProvider}
use crenel.Engine.{EdgeBinding, Engine}
use crenel.Chain.{is_chain_front}
use crenel.Follow.{EdgeReads, read_of, resolve_chain, effective_auth}

abbrev or_kind : IngressKind → IngressKind → IngressKind
or_kind unset_ingress k = k
or_kind public_listener k = public_listener
or_kind tunnel k = tunnel
or_kind overlay k = overlay
or_kind unknown_ingress k = unknown_ingress

-- The declared-unknown entry of an edge that was not read. Its reason goes on with the error's text.
abbrev pub unread_entry : Unparsed
unread_entry = record {
  locator = codes "edge";
  kind = server_not_read;
  reason = codes "edge could not be read: ";
  raw_excerpt = [];
}

-- The zero value of a missing key of the reads, which no edge of the engine meets.
abbrev pub no_state : LiveEdgeState
no_state = record {
  routes = [];
  deny_catch_all_present = false;
  unparsed = [];
  generator = [];
  ingress_kind = unset_ingress;
  persistence = unclassified;
  raw = [];
}

module _ {W : Type 0} where
  -- `chainTargets`, as the test that it is used for
  unfoldable pub is_chain_target : Engine W → Text → Bool
  is_chain_target e name =
      any (λ b. not (b.downstream_edge == []) && b.downstream_edge == name) e.edges

  -- what one edge adds to the reads
  unfoldable pub read_edge :
      Engine W → EdgeBinding W → W → Result Error (Result Error LiveEdgeState)
  unfolding is_chain_target
  read_edge e b w = elim (b.provider.read_live_state w) [
    | ok live ↦ ok (ok live)
    | err x ↦ if not (is_chain_target e b.name) then err (read_edge_failed b.name x) else ok (err x)
  ]

  unfoldable pub read_edges : Engine W → List (EdgeBinding W) → W → Result Error EdgeReads
  unfolding read_edge
  read_edges e [] w = ok []
  read_edges e (b ∷ bs) w = do
    one ← read_edge e b w
    rest ← read_edges e bs w
    ok ((b.name, one) ∷ rest)

  -- `readAll`
  unfoldable pub read_all : Engine W → W → Result Error EdgeReads
  unfolding read_edges
  read_all e w = read_edges e e.edges w

  unfoldable pub resolve_ingress_kind : EdgeBinding W → W → LiveEdgeState → IngressKind
  resolve_ingress_kind b w live = or_kind b.ingress_kind (
      or_kind (b.ingress_detected w) (
        or_kind live.ingress_kind
          (if live.generator == codes "pangolin" then overlay else unset_ingress)))

  abbrev pub with_link : EdgeReads → EdgeBinding W → Route → Route
  with_link reads b r = elim (resolve_chain reads b r) [
    | some link ↦ record r { chain = some link }
    | none ↦ r
  ]

  -- one route of `annotateChain`: the link is attached first, then the auth is replaced
  unfoldable pub annotate_route : EdgeReads → EdgeBinding W → Route → Route
  annotate_route reads b r =
      let linked = with_link reads b r in
      record linked { upstream = record linked.upstream { auth = effective_auth reads b linked } }

  unfoldable pub annotate_chain : EdgeReads → EdgeBinding W → List Route → List Route
  unfolding annotate_route
  annotate_chain reads b routes =
      if not (is_chain_front b) && not b.auth_downstream
      then routes
      else map (annotate_route reads b) routes

  abbrev pub unread_row : EdgeBinding W → EdgeStatus
  unread_row b = record {
    name = b.name;
    driver = b.provider.name;
    routes = [];
    deny_catch_all_present = true;
    unparsed = unread_entry ∷ [];
    generator = [];
    ingress_kind = b.ingress_kind;
    persistence = unclassified;
  }

  abbrev pub read_row : EdgeReads → EdgeBinding W → W → LiveEdgeState → EdgeStatus
  read_row reads b w live = record {
    name = b.name;
    driver = b.provider.name;
    routes = annotate_chain reads b live.routes;
    deny_catch_all_present = live.deny_catch_all_present;
    unparsed = live.unparsed;
    generator = live.generator;
    ingress_kind = resolve_ingress_kind b w live;
    persistence = live.persistence;
  }

  unfoldable pub edge_status : EdgeReads → W → EdgeBinding W → EdgeStatus
  edge_status reads w b = elim (read_of reads b.name) [
    | some (err x) ↦ unread_row b
    | some (ok live) ↦ read_row reads b w live
    | none ↦ read_row reads b w no_state
  ]

  unfoldable pub dns_status : W → List (DnsProvider W) → Result Error (List ScopeRecords)
  dns_status w [] = ok []
  dns_status w (p ∷ ps) = do
    records ← map_err (read_dns_failed p.name) (p.live_records w)
    rest ← dns_status w ps
    ok (record { provider = p.name; scope = p.scope; records = records } ∷ rest)

  -- `Status`
  unfoldable pub status : Engine W → W → Result Error StatusReport
  unfolding read_all
  status e w = do
    reads ← read_all e w
    dns ← dns_status w e.dns
    ok (record { edges = map (edge_status reads w) e.edges; dns = dns })
