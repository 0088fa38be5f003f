-- ===== src/Chain/Depth.antt =====
-- The depths of the edges of a chain: the passes settle, and a front is less deep than its
-- downstream edge.
use crenel.Prelude.{
  arith, subst, sym, ℕ, zero, suc, ◌+◌, ◌<◌, ◌≤◌, false, inl, inr, In, Bool-cases, Text, text_eq,
  length,
}
use crenel.Engine.{EdgeBinding, Engine}
use crenel.Chain.{Depths, relax_edges, relax_loop, chain_depth}
use crenel.Chain.Relax.{Linked, Ranked, Ascends, Settled, relax_edges-next, relax_edges-quiet}

module _ {W : Type 0} where
  relax_loop-Ascends :
      (e : Engine W) (rank : Text → ℕ) (passes k : ℕ) (d : Depths)
      → Ranked e rank
      → length e.edges ≤ k + passes
      → Settled e rank k d
      → (b : EdgeBinding W) → In b e.edges
      → Linked e b
      → Ascends b (relax_loop e passes d)
  unfolding relax_loop
  relax_loop-Ascends e rank zero k d ranked enough settled b m linked =
      let low = ranked.bounded b.downstream_edge in settled b m linked (omega arith)
  relax_loop-Ascends e rank (suc passes) k d ranked enough settled b m linked =
      elim (Bool-cases (relax_edges e e.edges (d, false)).1) [
        | inl changed ↦
            rw (changed, relax_loop)
              (relax_loop-Ascends e rank passes (suc k) _ ranked (omega arith)
                (λ b2 n l low.
                  relax_edges-next e rank k e.edges b2 (d, false) ranked (λ b3 x. x) settled n l
                    low)
                b m linked)
        | inr quiet ↦
            let (off, kept, up) = relax_edges-quiet e e.edges d false quiet in
            rw (quiet, relax_loop) (subst (λ (x : Depths). Ascends b x) (sym kept) (up b m linked))
      ]

  -- If the links between the edges have a rank that rises along each and is at most the number of
  -- edges, then every edge that forwards to an edge of the engine is less deep than that edge.
  pub chain_depth-ascends :
      (e : Engine W) (rank : Text → ℕ)
      → Ranked e rank
      → (b : EdgeBinding W) → In b e.edges
      → Linked e b
      → chain_depth e b.name < chain_depth e b.downstream_edge
  unfolding chain_depth
  chain_depth-ascends e rank ranked b m linked =
      relax_loop-Ascends e rank (length e.edges) 0 (λ name. 0) ranked (omega arith)
        (λ b2 n l low. let rise = ranked.rises b2 n l in absurd (omega arith)) b m linked
