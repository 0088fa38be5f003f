-- ===== src/Declarative/Converged.antt =====
-- internal/core/declarative.go: what an apply of a file that reports no error has seen.
use crenel.Prelude.{true, ◌≡◌, ◌⊎◌, [], text_eq, All, none}
use crenel.Reports.{no_outcome, runtime_unconfirmed_results}
use crenel.Engine.{Engine}
use crenel.Apply.{persist_edges}
use crenel.Declarative.Exposures.{DeclarativePlan}
use crenel.Declarative.Converging.{verify_declarative, Ended}
use crenel.Declarative.Shown.{EdgeShows, ProvidersCarry}

module _ {W : Type 0} where
  -- the world that was read back, where all that the plan wants holds
  abbrev pub Settled : Engine W → DeclarativePlan → W → W → Type 0
  Settled e p v after =
      All (EdgeShows p v) e.edges
      × ProvidersCarry p.change.dns e.dns v
      × ((e.allow_unverified ≡ true)
          ⊎ (runtime_unconfirmed_results (verify_declarative e p v) ≡ []))
      × (after ≡ (persist_edges e [] p.change.edges v no_outcome).0)

  abbrev Seen : Engine W → DeclarativePlan → Ended W → Type 0
  Seen e p f = f.2 ≡ none → f.1.applied ≡ true → (v : W) × Settled e p v f.0
