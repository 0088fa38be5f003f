-- ===== src/Status/Reads.antt =====
-- What the reads of a status hold for each edge.
use crenel.Prelude.{
  arith, subst, sym, ap, ◌∙◌, ◌≡◌, ◌≢◌, refl, List, [], ◌∷◌, inl, inr, In, In-cons_cases, All,
  Ordered, Bool-cases, none, some, Text, Result, ok, Result-cases, bind-eq-ok, ◌==◌, text_eq,
  text_beq_iff,
}
use crenel.Model.{LiveEdgeState}
use crenel.Reports.{Error}
use crenel.Engine.{EdgeBinding, Engine}
use crenel.Follow.{EdgeReads, read_of}
use crenel.Status.{read_edge, read_edges}

read_of-skip :
    (n : Text) (r : Result Error LiveEdgeState) (rest : EdgeReads) (name : Text)
    → n ≢ name
    → read_of rest name ≡ none
    → read_of ((n, r) ∷ rest) name ≡ none
unfolding read_of
read_of-skip n r rest name other absent = elim (Bool-cases (n == name)) [
  | inl hit ↦ absurd (other ((text_beq_iff n name).0 hit))
  | inr miss ↦ rw (absent, read_of) (rw miss refl)
]

read_of-here :
    (name : Text) (r : Result Error LiveEdgeState) (rest : EdgeReads)
    → read_of rest name ≡ none
    → read_of ((name, r) ∷ rest) name ≡ some r
unfolding read_of
read_of-here name r rest absent =
    let hit = (text_beq_iff name name).1 refl in rw (absent, read_of) (rw hit refl)

read_of-later :
    (n : Text) (r : Result Error LiveEdgeState) (rest : EdgeReads) (name : Text)
    {found : Result Error LiveEdgeState}
    → read_of rest name ≡ some found
    → read_of ((n, r) ∷ rest) name ≡ some found
unfolding read_of
read_of-later n r rest name later = rw (later, read_of) refl

module _ {W : Type 0} where
  -- no two edges have one name
  abbrev pub DistinctNames : List (EdgeBinding W) → Type 0
  DistinctNames bs = Ordered (λ (b c : EdgeBinding W). b.name ≢ c.name) bs

  read_edge-kept :
      (e : Engine W) (b : EdgeBinding W) (w : W) {r : Result Error LiveEdgeState}
      → read_edge e b w ≡ ok r
      → (r ≡ b.provider.read_live_state w)
  unfolding read_edge
  read_edge-kept e b w {r} h = elim (Result-cases (b.provider.read_live_state w)) [
    | inl (live, reads) ↦ ground arith
    | inr (x, fails) ↦ ground arith
  ]

  head_read :
      (e : Engine W) (c : EdgeBinding W) (w : W) (reads : EdgeReads)
      (one : Result Error LiveEdgeState) (rest : EdgeReads)
      → read_edge e c w ≡ ok one
      → reads ≡ (c.name, one) ∷ rest
      → read_of rest c.name ≡ none
      → (read_of reads c.name ≡ some (c.provider.read_live_state w))
        × (read_edge e c w ≡ ok (c.provider.read_live_state w))
  head_read e c w reads one rest first whole absent =
      let same : one ≡ c.provider.read_live_state w = read_edge-kept e c w first in
      (
        subst (λ (rs : EdgeReads). read_of rs c.name ≡ some (c.provider.read_live_state w))
            (sym whole)
            (read_of-here c.name one rest absent
              ∙ ap (λ (r : Result Error LiveEdgeState). some r) same),
        first ∙ ap (λ (r : Result Error LiveEdgeState). ok r) same,
      )

  read_of-absent :
      (e : Engine W) (bs : List (EdgeBinding W)) (w : W) (reads : EdgeReads) (name : Text)
      → read_edges e bs w ≡ ok reads
      → All (λ (c : EdgeBinding W). name ≢ c.name) bs
      → read_of reads name ≡ none
  unfolding read_edges
  read_of-absent e [] w reads name h k =
      let empty : reads ≡ [] = ground arith in
      subst (λ (rs : EdgeReads). read_of rs name ≡ none) (sym empty) (unfold read_of in refl)
  read_of-absent e (b ∷ bs) w reads name h k =
      let (one, first, h1) = bind-eq-ok (read_edge e b w) _ h in
      let (rest, others, h2) = bind-eq-ok (read_edges e bs w) _ h1 in
      let whole : reads ≡ (b.name, one) ∷ rest = ground arith in
      subst (λ (rs : EdgeReads). read_of rs name ≡ none) (sym whole)
        (read_of-skip b.name one rest name (λ e. k.0 (sym e))
          (read_of-absent e bs w rest name others k.1))

  -- what the reads hold for each edge
  pub read_of-edge :
      (e : Engine W) (bs : List (EdgeBinding W)) (w : W) (reads : EdgeReads) (b : EdgeBinding W)
      → DistinctNames bs
      → read_edges e bs w ≡ ok reads
      → In b bs
      → (read_of reads b.name ≡ some (b.provider.read_live_state w))
        × (read_edge e b w ≡ ok (b.provider.read_live_state w))
  unfolding read_edges
  read_of-edge e [] w reads b d h m = elim m [ ]
  read_of-edge e (c ∷ bs) w reads b d h m =
      let (one, first, h1) = bind-eq-ok (read_edge e c w) _ h in
      let (rest, others, h2) = bind-eq-ok (read_edges e bs w) _ h1 in
      let whole : reads ≡ (c.name, one) ∷ rest = ground arith in
      elim (In-cons_cases m) [
        | inr later ↦
            let (found, kept) = read_of-edge e bs w rest b d.1 others later in
            (
              subst (λ (rs : EdgeReads). read_of rs b.name ≡ some (b.provider.read_live_state w))
                  (sym whole) (read_of-later c.name one rest b.name found),
              kept,
            )
        | inl top ↦
            subst
              (λ (x : EdgeBinding W).
                (read_of reads x.name ≡ some (x.provider.read_live_state w))
                × (read_edge e x w ≡ ok (x.provider.read_live_state w)))
              (sym top)
              (head_read e c w reads one rest first whole
                (read_of-absent e bs w rest c.name others d.0))
      ]
