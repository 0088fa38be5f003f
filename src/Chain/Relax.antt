-- ===== src/Chain/Relax.antt =====
-- What a pass of `chainDepth` does to the depths of the edges.
use crenel.Prelude.{
  arith, ap, subst, sym, ℕ, suc, ◌+◌, ◌<◌, ◌≤◌, Bool, true, false, ◌≡◌, ◌≢◌, refl, List, [], ◌∷◌,
  ◌⊎◌, inl, inr, In, here, there, In-cons_cases, Bool-cases, Text, ◌==◌, text_eq, text_beq_iff,
  length, ltb,
}
use crenel.Engine.{EdgeBinding, Engine}
use crenel.Chain.{Depths, set_depth, is_edge_name, relax_edge, relax_edges}

set_depth-other :
    (d : Depths) (name : Text) (v : ℕ) (x : Text) → name ≢ x → set_depth d name v x ≡ d x
set_depth-other d name v x other = ground (arith, text_beq_iff name x)

set_depth-same : (d : Depths) (name : Text) (v : ℕ) → set_depth d name v name ≡ v
set_depth-same d name v = let t = (text_beq_iff name name).1 refl in ground arith

set_depth-grows :
    (d : Depths) (name : Text) (v : ℕ) (x : Text) → d name ≤ v → d x ≤ set_depth d name v x
set_depth-grows d name v x h = elim (Bool-cases (name == x)) [
  | inl e ↦ let same : name ≡ x = (text_beq_iff name x).0 e in rw e (subst (λ y. d y ≤ v) same h)
  | inr e ↦ rw e (omega arith)
]

module _ {W : Type 0} where
  -- The edge forwards to an edge of the engine.
  abbrev pub Linked : Engine W → EdgeBinding W → Type 0
  Linked e b = (b.downstream_edge ≢ []) × (is_edge_name e b.downstream_edge ≡ true)

  -- The links are not cyclic: there is a rank that rises along each of them, and that is bounded by
  -- the number of edges.
  pub record Ranked (e : Engine W) (rank : Text → ℕ) : Type 0 where
    pub rises :
        (b : EdgeBinding W) → In b e.edges → Linked e b → rank b.name < rank b.downstream_edge
    pub bounded : (name : Text) → rank name ≤ length e.edges

  abbrev pub Ascends : EdgeBinding W → Depths → Type 0
  Ascends b d = d b.name < d b.downstream_edge

  -- What the relaxing of one edge does: nothing, as the edge is not linked or ascends, or it sets
  -- the depth of the downstream edge and the flag.
  relax_edge-cases :
      (e : Engine W) (b : EdgeBinding W) (d : Depths) (c : Bool)
      → ((relax_edge e b (d, c) ≡ (d, c)) × (Linked e b → Ascends b d))
        ⊎ (Linked e b
            × (d b.downstream_edge ≤ d b.name)
            × (relax_edge e b (d, c) ≡ (set_depth d b.downstream_edge (d b.name + 1), true)))
  unfolding relax_edge
  relax_edge-cases e b d c = elim (Bool-cases (b.downstream_edge == [])) [
    | inl e1 ↦
        inl (rw e1 refl, λ (some_, edge). absurd (some_ ((text_beq_iff b.downstream_edge []).0 e1)))
    | inr e1 ↦ elim (Bool-cases (is_edge_name e b.downstream_edge)) [
      | inr e2 ↦ inl (rw (e1, e2) refl, λ (some_, edge). cc)
      | inl e2 ↦ elim (Bool-cases (ltb (d b.downstream_edge) (d b.name + 1))) [
        | inr e3 ↦ inl (rw (e1, e2, e3) refl, λ linked. ground arith)
        | inl e3 ↦ inr (
          (λ k. absurd (let t = (text_beq_iff b.downstream_edge []).1 k in ground arith), e2),
          ground arith,
          rw (e1, e2, e3) refl,
        )
      ]
    ]
  ]

  -- The links into an edge of rank at most `k` ascend.
  abbrev pub Settled : Engine W → (Text → ℕ) → ℕ → Depths → Type 0
  Settled e rank k d =
      (b : EdgeBinding W) → In b e.edges → Linked e b → rank b.downstream_edge ≤ k → Ascends b d

  relax_edge-frozen :
      (e : Engine W) (rank : Text → ℕ) (k : ℕ) (b : EdgeBinding W) (d : Depths) (c : Bool)
      (x : Text)
      → In b e.edges
      → Settled e rank k d
      → rank x ≤ k
      → (relax_edge e b (d, c)).0 x ≡ d x
  relax_edge-frozen e rank k b d c x m settled low = elim (relax_edge-cases e b d c) [
    | inl (same, up) ↦ rw same refl
    | inr (linked, down, same) ↦ rw same (
        set_depth-other d b.downstream_edge (d b.name + 1) x (λ hit.
          let ascends = settled b m linked (subst (λ y. rank y ≤ k) (sym hit) low) in
          absurd (omega arith)))
  ]

  relax_edge-grows :
      (e : Engine W) (b : EdgeBinding W) (d : Depths) (c : Bool) (x : Text)
      → d x ≤ (relax_edge e b (d, c)).0 x
  relax_edge-grows e b d c x = elim (relax_edge-cases e b d c) [
    | inl (same, up) ↦ rw same (omega arith)
    | inr (linked, down, same) ↦
        rw same (set_depth-grows d b.downstream_edge (d b.name + 1) x (omega arith))
  ]

  relax_edge-Settled :
      (e : Engine W) (rank : Text → ℕ) (k : ℕ) (b : EdgeBinding W) (d : Depths) (c : Bool)
      → Ranked e rank
      → In b e.edges
      → Settled e rank k d
      → Settled e rank k (relax_edge e b (d, c)).0
  relax_edge-Settled e rank k b d c ranked m settled b2 m2 linked low =
      let rise = ranked.rises b2 m2 linked in
      let front = relax_edge-frozen e rank k b d c b2.name m settled (omega arith) in
      let down = relax_edge-frozen e rank k b d c b2.downstream_edge m settled low in
      let ascends = settled b2 m2 linked low in omega arith

  -- An edge into rank `k + 1` ascends, and goes on to do so, once it was relaxed.
  relax_edge-stays :
      (e : Engine W) (rank : Text → ℕ) (k : ℕ) (b b2 : EdgeBinding W) (d : Depths) (c : Bool)
      → In b e.edges
      → Settled e rank k d
      → rank b2.name ≤ k
      → Ascends b2 d
      → Ascends b2 (relax_edge e b (d, c)).0
  relax_edge-stays e rank k b b2 d c m settled low ascends =
      let front = relax_edge-frozen e rank k b d c b2.name m settled low in
      let down = relax_edge-grows e b d c b2.downstream_edge in omega arith

  relax_edge-Ascends :
      (e : Engine W) (rank : Text → ℕ) (b : EdgeBinding W) (d : Depths) (c : Bool)
      → Ranked e rank
      → In b e.edges
      → Linked e b
      → Ascends b (relax_edge e b (d, c)).0
  relax_edge-Ascends e rank b d c ranked m linked = elim (relax_edge-cases e b d c) [
    | inl (same, up) ↦ rw same (up linked)
    | inr (l, down, same) ↦
        let rise = ranked.rises b m linked in
        let front = set_depth-other d b.downstream_edge (d b.name + 1) b.name (λ hit.
          let level : rank b.downstream_edge ≡ rank b.name = ap rank hit in absurd (omega arith)) in
        let top = set_depth-same d b.downstream_edge (d b.name + 1) in rw same (omega arith)
  ]

  relax_edges-Settled :
      (e : Engine W) (rank : Text → ℕ) (k : ℕ) (bs : List (EdgeBinding W)) (s : Depths × Bool)
      → Ranked e rank
      → ((b : EdgeBinding W) → In b bs → In b e.edges)
      → Settled e rank k s.0
      → Settled e rank k (relax_edges e bs s).0
  unfolding relax_edges
  relax_edges-Settled e rank k [] s ranked sub settled = settled
  relax_edges-Settled e rank k (b ∷ bs) (d, c) ranked sub settled =
      relax_edges-Settled e rank k bs (relax_edge e b (d, c)) ranked (λ b2 m. sub b2 (there m))
        (relax_edge-Settled e rank k b d c ranked (sub b here) settled)

  relax_edges-stays :
      (e : Engine W) (rank : Text → ℕ) (k : ℕ) (bs : List (EdgeBinding W)) (b2 : EdgeBinding W)
      (s : Depths × Bool)
      → Ranked e rank
      → ((b : EdgeBinding W) → In b bs → In b e.edges)
      → Settled e rank k s.0
      → rank b2.name ≤ k
      → Ascends b2 s.0
      → Ascends b2 (relax_edges e bs s).0
  unfolding relax_edges
  relax_edges-stays e rank k [] b2 s ranked sub settled low ascends = ascends
  relax_edges-stays e rank k (b ∷ bs) b2 (d, c) ranked sub settled low ascends =
      relax_edges-stays e rank k bs b2 (relax_edge e b (d, c)) ranked (λ b3 m. sub b3 (there m))
        (relax_edge-Settled e rank k b d c ranked (sub b here) settled) low
        (relax_edge-stays e rank k b b2 d c (sub b here) settled low ascends)

  -- A pass settles one rank more.
  pub relax_edges-next :
      (e : Engine W) (rank : Text → ℕ) (k : ℕ) (bs : List (EdgeBinding W)) (b2 : EdgeBinding W)
      (s : Depths × Bool)
      → Ranked e rank
      → ((b : EdgeBinding W) → In b bs → In b e.edges)
      → Settled e rank k s.0
      → In b2 bs
      → Linked e b2
      → rank b2.downstream_edge ≤ suc k
      → Ascends b2 (relax_edges e bs s).0
  unfolding relax_edges
  relax_edges-next e rank k [] b2 s ranked sub settled m linked low = elim m [ ]
  relax_edges-next e rank k (b ∷ bs) b2 (d, c) ranked sub settled m linked low =
      let kept = relax_edge-Settled e rank k b d c ranked (sub b here) settled in
      elim (In-cons_cases m) [
        | inr later ↦
            relax_edges-next e rank k bs b2 (relax_edge e b (d, c)) ranked
              (λ b3 n. sub b3 (there n)) kept later linked low
        | inl top ↦
            let rise = ranked.rises b2 (sub b2 m) linked in
            let now : Ascends b2 (relax_edge e b (d, c)).0 =
              subst (λ (x : EdgeBinding W). Ascends b2 (relax_edge e x (d, c)).0) top
                (relax_edge-Ascends e rank b2 d c ranked (sub b2 m) linked) in
            relax_edges-stays e rank k bs b2 (relax_edge e b (d, c)) ranked
              (λ b3 n. sub b3 (there n)) kept (omega arith) now
      ]

  -- A pass that sets no flag has found every edge ascending.
  pub relax_edges-quiet :
      (e : Engine W) (bs : List (EdgeBinding W)) (d : Depths) (c : Bool)
      → (relax_edges e bs (d, c)).1 ≡ false
      → (c ≡ false)
        × ((relax_edges e bs (d, c)).0 ≡ d)
        × ((b : EdgeBinding W) → In b bs → Linked e b → Ascends b d)
  unfolding relax_edges
  relax_edges-quiet e [] d c h = (h, refl, λ b m. elim m [ ])
  relax_edges-quiet e (b ∷ bs) d c h =
      let tail : (relax_edges e bs (relax_edge e b (d, c))).1 ≡ false = h in
      elim (relax_edge-cases e b d c) [
        | inl (same, up) ↦
            let (off, kept, rest) =
              relax_edges-quiet e bs d c
                (subst (λ (s : Depths × Bool). (relax_edges e bs s).1 ≡ false) same tail) in
            (
              off,
              subst (λ (s : Depths × Bool). (relax_edges e bs s).0 ≡ d) (sym same) kept,
              λ b2 m linked. elim (In-cons_cases m) [
                | inl top ↦
                    subst (λ (x : EdgeBinding W). Linked e x → Ascends x d) (sym top) up linked
                | inr later ↦ rest b2 later linked
              ],
            )
        | inr (l, down, same) ↦
            let (off, kept, rest) =
              relax_edges-quiet e bs _ true
                (subst (λ (s : Depths × Bool). (relax_edges e bs s).1 ≡ false) same tail) in
            absurd (ground arith)
      ]
