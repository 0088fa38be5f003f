-- ===== src/Ack/ReadBack.antt =====
-- What an acknowledgement that returns no error has read back.
use crenel.Prelude.{
  arith, subst, Bool, true, false, not, ◌≡◌, refl, List, [], ◌∷◌, any, any-In, In-any, In, here,
  there, In-cons_cases, Bool-cases, Result-cases, Option, none, some, Text, codes, if_rule, ok, inl,
  inr, sym,
}
use crenel.Model.{LiveEdgeState, Unparsed}
use crenel.Reports.{Error}
use crenel.Ports.{Acker}
use crenel.Engine.{EdgeBinding, Engine, gate_read_only}
use crenel.Ack.{
  AckRun, acknowledges, still_acknowledged, ack_unack_on_edges, any_entry, confirm_ack,
  confirm_unack, ack, unack,
}

module _ {W : Type 0} where
  -- An edge that shows an entry with the property.
  abbrev pub Entry : (Unparsed → Bool) → List (EdgeBinding W) → W → Type 0
  Entry p bs w =
      (b : EdgeBinding W) × (live : LiveEdgeState) × (u : Unparsed) × In b bs
      × (b.provider.read_live_state w ≡ ok live)
      × In u live.unparsed
      × (p u ≡ true)

  Entry-there :
      (p : Unparsed → Bool) (b : EdgeBinding W) (bs : List (EdgeBinding W)) (w : W)
      → Entry p bs w
      → Entry p (b ∷ bs) w
  Entry-there p b bs w (c, live, u, m, reads, n, t) = (c, live, u, there m, reads, n, t)

  pub any_entry-Entry :
      (p : Unparsed → Bool) (bs : List (EdgeBinding W)) (w : W)
      → any_entry p bs w ≡ true
      → Entry p bs w
  unfolding any_entry
  any_entry-Entry p [] w h = cc
  any_entry-Entry p (b ∷ bs) w h = elim (Result-cases (b.provider.read_live_state w)) [
    | inr (x, fails) ↦ Entry-there p b bs w (any_entry-Entry p bs w (ground arith))
    | inl (live, reads) ↦ elim (Bool-cases (any p live.unparsed)) [
      | inl hit ↦ let (u, m, t) = any-In p live.unparsed hit in (b, live, u, here, reads, m, t)
      | inr miss ↦ Entry-there p b bs w (any_entry-Entry p bs w (ground arith))
    ]
  ]

  Entry-any_entry :
      (p : Unparsed → Bool) (bs : List (EdgeBinding W)) (w : W) (b : EdgeBinding W)
      (live : LiveEdgeState) (u : Unparsed)
      → In b bs
      → b.provider.read_live_state w ≡ ok live
      → In u live.unparsed
      → p u ≡ true
      → any_entry p bs w ≡ true
  unfolding any_entry
  Entry-any_entry p [] w b live u m reads n t = elim m [ ]
  Entry-any_entry p (c ∷ bs) w b live u m reads n t = elim (In-cons_cases m) [
    | inl top ↦
        let here_ : c.provider.read_live_state w ≡ ok live =
          subst (λ (x : EdgeBinding W). x.provider.read_live_state w ≡ ok live) top reads in
        let hit = In-any p n t in ground arith
    | inr later ↦
        let rest = Entry-any_entry p bs w b live u later reads n t in
        elim (Result-cases (c.provider.read_live_state w)) [
          | inl (l, r) ↦ ground arith
          | inr (x, r) ↦ ground arith
        ]
  ]

  pub gate_read_only-open :
      (e : Engine W) (verb : Text) {u : Unit {0}}
      → gate_read_only e verb ≡ ok u
      → e.read_only ≡ false
  unfolding gate_read_only
  gate_read_only-open e verb h = ground arith

  confirm_ack-Entry :
      (e : Engine W) (host reason : Text) (r : AckRun W)
      → (confirm_ack e host reason r).1 ≡ none
      → Entry (acknowledges reason) e.edges (confirm_ack e host reason r).0
  confirm_ack-Entry e host reason (w, done, failures) =
      if_rule (λ (f : W × Option Error). f.1 ≡ none → Entry (acknowledges reason) e.edges f.0)
        (not done) (λ _ fine. cc fine)
        (λ _.
          if_rule (λ (f : W × Option Error). f.1 ≡ none → Entry (acknowledges reason) e.edges f.0)
            (any_entry (acknowledges reason) e.edges w)
            (λ hit _. any_entry-Entry (acknowledges reason) e.edges w hit) (λ _ fine. cc fine))

  -- No edge that can be read shows an entry with the property.
  abbrev pub NoEntry : (Unparsed → Bool) → List (EdgeBinding W) → W → Type 0
  NoEntry p bs w =
      (b : EdgeBinding W) (live : LiveEdgeState) (u : Unparsed)
      → In b bs
      → b.provider.read_live_state w ≡ ok live
      → In u live.unparsed
      → p u ≡ false

  pub any_entry-NoEntry :
      (p : Unparsed → Bool) (bs : List (EdgeBinding W)) (w : W)
      → any_entry p bs w ≡ false
      → NoEntry p bs w
  any_entry-NoEntry p bs w h b live u m reads n = elim (Bool-cases (p u)) [
    | inr no_ ↦ no_
    | inl yes_ ↦ let found = Entry-any_entry p bs w b live u m reads n yes_ in absurd (ground arith)
  ]

  confirm_unack-NoEntry :
      (e : Engine W) (host : Text) (r : AckRun W)
      → (confirm_unack e host r).1 ≡ none
      → NoEntry (still_acknowledged host) e.edges (confirm_unack e host r).0
  confirm_unack-NoEntry e host (w, done, failures) =
      if_rule (λ (f : W × Option Error). f.1 ≡ none → NoEntry (still_acknowledged host) e.edges f.0)
        (not done) (λ _ fine. cc fine)
        (λ _.
          if_rule
            (λ (f : W × Option Error). f.1 ≡ none → NoEntry (still_acknowledged host) e.edges f.0)
            (any_entry (still_acknowledged host) e.edges w) (λ _ fine. cc fine)
            (λ miss _. any_entry-NoEntry (still_acknowledged host) e.edges w miss))

  -- If an acknowledgement returns no error, then the engine is not read-only, and in the world that
  -- it leaves an edge shows an acknowledged entry whose reason contains the given one, up to case.
  -- Which host that entry is of is not read back.
  pub ack-Entry :
      (e : Engine W) (host reason : Text) (w : W)
      → (ack e host reason w).1 ≡ none
      → (e.read_only ≡ false) × Entry (acknowledges reason) e.edges (ack e host reason w).0
  unfolding ack
  ack-Entry e host reason w =
      elim (Result-cases (gate_read_only e (codes "ack")))
        as (λ _.
          (ack e host reason w).1 ≡ none
          → (e.read_only ≡ false) × Entry (acknowledges reason) e.edges (ack e host reason w).0) [
            | inr (x, sealed) ↦ rw (sealed, ack) (λ fine. cc fine)
            | inl (u, open_) ↦
                rw (open_, ack)
                  (λ fine. (
                    gate_read_only-open e (codes "ack") open_,
                    confirm_ack-Entry e host reason _ fine,
                  ))
          ]

  -- If the removing of an acknowledgement returns no error, then the engine is not read-only, and in
  -- the world that it leaves no edge that can be read shows an acknowledged entry with the host in
  -- its excerpt.
  pub unack-NoEntry :
      (e : Engine W) (host : Text) (w : W)
      → (unack e host w).1 ≡ none
      → (e.read_only ≡ false) × NoEntry (still_acknowledged host) e.edges (unack e host w).0
  unfolding unack
  unack-NoEntry e host w =
      elim (Result-cases (gate_read_only e (codes "unack")))
        as (λ _.
          (unack e host w).1 ≡ none
          → (e.read_only ≡ false) × NoEntry (still_acknowledged host) e.edges (unack e host w).0) [
            | inr (x, sealed) ↦ rw (sealed, unack) (λ fine. cc fine)
            | inl (u, open_) ↦
                rw (open_, unack)
                  (λ fine. (
                    gate_read_only-open e (codes "unack") open_,
                    confirm_unack-NoEntry e host _ fine,
                  ))
          ]

  one_edge :
      (e : Engine W) (b : EdgeBinding W) (a : Acker W) (host reason : Text) (w : W)
      → e.edges ≡ b ∷ []
      → b.provider.acker ≡ some a
      → a.ack host reason w ≡ (w, none)
      → ack_unack_on_edges (λ x. x.ack host reason) e.edges w false [] ≡ (w, true, [])
  unfolding ack_unack_on_edges
  one_edge e b a host reason w only can did = rw only (rw (can, ack_unack_on_edges) (rw did refl))

  gate_read_only-pass :
      (e : Engine W) (verb : Text) → e.read_only ≡ false → gate_read_only e verb ≡ ok tt
  unfolding gate_read_only
  gate_read_only-pass e verb h = ground arith

  -- On an engine with one edge, whose driver reports that it has set the marker but changes nothing,
  -- an acknowledgement of any host returns no error if the edge shows, for whichever route, an
  -- acknowledged entry whose reason contains the given one.
  pub ack-confirms_any :
      (e : Engine W) (b : EdgeBinding W) (a : Acker W) (host reason : Text) (w : W)
      (live : LiveEdgeState) (u : Unparsed)
      → e.read_only ≡ false
      → e.edges ≡ b ∷ []
      → b.provider.acker ≡ some a
      → a.ack host reason w ≡ (w, none)
      → b.provider.read_live_state w ≡ ok live
      → In u live.unparsed
      → acknowledges reason u ≡ true
      → ack e host reason w ≡ (w, none)
  unfolding ack
  ack-confirms_any e b a host reason w live u open_ only can did reads n t =
      let found : any_entry (acknowledges reason) e.edges w ≡ true =
        Entry-any_entry (acknowledges reason) e.edges w b live u
          (subst (λ (bs : List (EdgeBinding W)). In b bs) (sym only) here) reads n t in
      rw (gate_read_only-pass e (codes "ack") open_, ack)
        (rw (one_edge e b a host reason w only can did) (rw found refl))
