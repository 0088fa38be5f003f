-- ===== src/Ports.antt =====
-- internal/ports/ports.go: what core asks of the providers that are wired to it. `W` is the world
-- outside the engine: the running proxies, the zones and the files. Reading observes the world, and
-- only applying and persisting change it. An optional capability is an `Option`.
use crenel.Prelude.{ℕ, Bool, List, Option, Text, Result}
use crenel.Model.{
  Op, Scope, LiveEdgeState, PersistenceModel, Record, EdgeChange, DnsChange, ChangeSet,
}
use crenel.Reports.{Error, RuntimeVerification}

-- `Acker`
pub record Acker (W : Type 0) : Type 0 where
  pub ack : Text → Text → W → W × Option Error
  pub unack : Text → W → W × Option Error

-- `LocatorAcker`
pub record LocatorAcker (W : Type 0) : Type 0 where
  pub ack_locator : Text → Text → W → W × Option Error
  pub unack_locator : Text → W → W × Option Error
  pub route_raw_json : Text → W → Result Error Text

-- `identity` tells the provider objects of a program apart, as their pointers do.
pub record EdgeProvider (W : Type 0) : Type 0 where
  pub identity : ℕ
  pub name : Text
  pub read_live_state : W → Result Error LiveEdgeState
  pub plan : Op → LiveEdgeState → Result Error ChangeSet
  pub apply : ChangeSet → W → W × Option Error
  -- `HealthChecker`
  pub healthy : Option (W → Option Error)
  -- `Persister`
  pub persist : Option (W → W × Option Error)
  -- `DurabilityReporter`
  pub persistence_model : Option PersistenceModel
  pub acker : Option (Acker W)
  pub locator_acker : Option (LocatorAcker W)
  -- `Adopter`
  pub adopter : Option (List Text → W → W × Option Error)
  -- `RuntimeVerifier`
  pub verify_runtime : Option (Op → EdgeChange → W → RuntimeVerification)

pub record DnsProvider (W : Type 0) : Type 0 where
  pub name : Text
  pub scope : Scope
  pub desired_records : Op → Result Error (List Record)
  pub diff : Op → List Record → W → Result Error DnsChange
  pub apply : DnsChange → W → W × Option Error
  pub live_records : W → Result Error (List Record)
  -- `ZoneReporter`
  pub managed_zone : Option Text
  -- `ResidencyTargeter`
  pub residency_target : Option (Text → Result Error Text)
  -- `OwnedRecordReporter`
  pub owns_all_live_records : Option Bool
  -- `CoverageReporter`
  pub coverage_records : Option (W → Result Error (List Record))
