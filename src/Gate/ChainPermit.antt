-- ===== src/Gate/ChainPermit.antt =====
-- What the ownership gate has checked of a chain when it lets a change pass.
use crenel.Prelude.{
  arith, subst, Bool, true, ◌≡◌, ◌≢◌, refl, List, [], ◌∷◌, In, In-any, In-cons_cases, Bool-cases,
  Text, ◌==◌, text_eq, text_beq_iff, ok, ◌>>=◌, bind-eq-ok, map_err, map_err-eq-ok, inl, inr, sym,
}
use crenel.Model.{Op, LiveEdgeState, ChangeSet}
use crenel.Reports.{gate_read_failed}
use crenel.Engine.{EdgeBinding, Engine}
use crenel.Chain.{ChainRole, role_none, role_terminal, role_forward, role_for}
use crenel.Gate.{
  ownership_of, gate_chain_live, gate_participants, gate_chain_ownership, gate_plans,
  gate_ownership, is_forward, takes_part,
}
use crenel.Gate.Permit.{IsPermitted, gate_owner-IsPermitted}

gate_chain_live-IsPermitted :
    (force : Bool) (edge host : Text) (live : LiveEdgeState)
    → gate_chain_live force edge host live ≡ ok tt
    → (live.generator ≡ []) × IsPermitted force (ownership_of live host)
unfolding gate_chain_live
gate_chain_live-IsPermitted force edge host live h = elim (Bool-cases (live.generator == [])) [
  | inl none_ ↦ (
    (text_beq_iff live.generator []).0 none_,
    gate_owner-IsPermitted force edge host (ownership_of live host) (ground (arith, none_, h)),
  )
  | inr some_ ↦ absurd (ground (arith, some_, h))
]

takes_part-role : (r : ChainRole) → r ≢ role_none → takes_part r ≡ true
takes_part-role role_none h = absurd (h refl)
takes_part-role role_terminal h = refl
takes_part-role role_forward h = refl

module _ {W : Type 0} where
  -- The edge was read, no generator owns it, and its route of the host may be managed.
  abbrev pub ParticipantPermitted : Engine W → Op → W → EdgeBinding W → Type 0
  ParticipantPermitted e op w b =
      (live : LiveEdgeState) × (b.provider.read_live_state w ≡ ok live)
      × (live.generator ≡ [])
      × IsPermitted e.force (ownership_of live op.host)

  gate_participants-Permitted :
      (e : Engine W) (op : Op) (w : W) (bs : List (EdgeBinding W)) (b : EdgeBinding W)
      → gate_participants e op w bs ≡ ok tt
      → In b bs
      → role_for e b op.service ≢ role_none
      → ParticipantPermitted e op w b
  unfolding gate_participants
  gate_participants-Permitted e op w [] b g m part = elim m [ ]
  gate_participants-Permitted e op w (c ∷ bs) b g m part =
      let (_, first, rest) = bind-eq-ok _ (λ _. gate_participants e op w bs) g in
      elim (In-cons_cases m) [
        | inr later ↦ gate_participants-Permitted e op w bs b rest later part
        | inl top ↦
            let mine : takes_part (role_for e c op.service) ≡ true =
              subst (λ (x : EdgeBinding W). takes_part (role_for e x op.service) ≡ true) top
                (takes_part-role (role_for e b op.service) part) in
            let opened : (map_err (gate_read_failed c.name) (c.provider.read_live_state w)
                  >>= gate_chain_live e.force c.name op.host)
                ≡ ok tt =
              rw mine at first in
            let (live, reading, passed) =
              bind-eq-ok _ (gate_chain_live e.force c.name op.host) opened in
            let (own, permitted) = gate_chain_live-IsPermitted e.force c.name op.host live passed in
            subst (ParticipantPermitted e op w) (sym top)
              (live, map_err-eq-ok (gate_read_failed c.name) _ reading, own, permitted)
      ]

  gate_chain_ownership-opened :
      (e : Engine W) (op : Op) (w : W) (f : EdgeBinding W)
      → op.host ≢ []
      → In f e.edges
      → role_for e f op.service ≡ role_forward
      → gate_chain_ownership e op w ≡ ok tt
      → gate_participants e op w e.edges ≡ ok tt
  unfolding gate_chain_ownership
  gate_chain_ownership-opened e op w f some_ m forwards g = elim (Bool-cases (op.host == [])) [
    | inl none_ ↦ absurd (some_ ((text_beq_iff op.host []).0 none_))
    | inr full ↦
        let forward_here : is_forward (role_for e f op.service) ≡ true = rw forwards refl in
        let chain =
          In-any (λ (b : EdgeBinding W). is_forward (role_for e b op.service)) m forward_here in
        ground (arith, full, chain, g)
  ]

  -- If the ownership gate lets a change set pass whose op has a host, and some edge of the engine
  -- forwards the op's service along a chain, then every edge that takes part in the service was
  -- read, is not owned by a generator, and its route of the op's host, if any, is not foreign,
  -- nor of unknown owner unless the engine is forced. This holds even where the change set
  -- has no change for the edge.
  pub gate_ownership-ParticipantPermitted :
      (e : Engine W) (cs : ChangeSet) (w : W) (f b : EdgeBinding W)
      → gate_ownership e cs w ≡ ok tt
      → cs.op.host ≢ []
      → In f e.edges
      → role_for e f cs.op.service ≡ role_forward
      → In b e.edges
      → role_for e b cs.op.service ≢ role_none
      → ParticipantPermitted e cs.op w b
  gate_ownership-ParticipantPermitted e cs w f b g some_ mf forwards mb part =
      let (_, chain, plans) =
        bind-eq-ok (gate_chain_ownership e cs.op w) (λ _. gate_plans e w cs.edges)
          (unfold gate_ownership in g) in
      gate_participants-Permitted e cs.op w e.edges b
        (gate_chain_ownership-opened e cs.op w f some_ mf forwards chain) mb part
