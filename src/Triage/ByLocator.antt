-- ===== src/Triage/ByLocator.antt =====
-- What the listing of the entries shows, and what acknowledging one by its place has read back.
use crenel.Prelude.{
  arith, subst, sym, Bool, true, false, not, ◌≡◌, List, [], ◌∷◌, ◌++◌, map, keep_if, In, here,
  there, In-append, In-append_right, In-append_cases, In-cons_cases, Bool-cases, Result-cases,
  Option, none, Text, codes, if_rule, ok, inl, inr, text_eq, bind-eq-ok, map_err, map_err-eq-ok,
}
use crenel.Model.{LiveEdgeState, Unparsed, is_acknowledged}
use crenel.Reports.{Error, read_edge_failed}
use crenel.Engine.{EdgeBinding, Engine, gate_read_only}
use crenel.Ack.{AckRun, any_entry}
use crenel.Ack.ReadBack.{Entry, NoEntry, any_entry-Entry, any_entry-NoEntry, gate_read_only-open}
use crenel.Triage.{
  acknowledged_at, edges_named, confirm_ack_route, confirm_unack_route, ack_route, unack_route,
  triage_items, not_understood, TriageItem, item_of, real_unknown,
}

In-keep_if :
    {A : Type 0} (p : A → Bool) {x : A} {xs : List A} → In x xs → p x ≡ true → In x (keep_if p xs)
In-keep_if p (here {xs}) h = rw h here
In-keep_if p (there {y} m) h = elim (Bool-cases (p y)) [
  | inl e ↦ rw e (there (In-keep_if p m h))
  | inr e ↦ rw e (In-keep_if p m h)
]

In-map_item : {A B : Type 0} (f : A → B) {x : A} {xs : List A} → In x xs → In (f x) (map f xs)
In-map_item f here = here
In-map_item f (there m) = there (In-map_item f m)

module _ {W : Type 0} where
  confirm_ack_route-Entry :
      (bs : List (EdgeBinding W)) (locator : Text) (r : AckRun W)
      → (confirm_ack_route bs locator r).1 ≡ none
      → Entry (acknowledged_at locator) bs (confirm_ack_route bs locator r).0
  confirm_ack_route-Entry bs locator (w, done, failures) =
      if_rule (λ (f : W × Option Error). f.1 ≡ none → Entry (acknowledged_at locator) bs f.0)
        (not done) (λ _ fine. cc fine)
        (λ _.
          if_rule (λ (f : W × Option Error). f.1 ≡ none → Entry (acknowledged_at locator) bs f.0)
            (any_entry (acknowledged_at locator) bs w)
            (λ hit _. any_entry-Entry (acknowledged_at locator) bs w hit) (λ _ fine. cc fine))

  confirm_unack_route-NoEntry :
      (bs : List (EdgeBinding W)) (locator : Text) (r : AckRun W)
      → (confirm_unack_route bs locator r).1 ≡ none
      → NoEntry (acknowledged_at locator) bs (confirm_unack_route bs locator r).0
  confirm_unack_route-NoEntry bs locator (w, done, failures) =
      if_rule (λ (f : W × Option Error). f.1 ≡ none → NoEntry (acknowledged_at locator) bs f.0)
        (not done) (λ _ fine. cc fine)
        (λ _.
          if_rule (λ (f : W × Option Error). f.1 ≡ none → NoEntry (acknowledged_at locator) bs f.0)
            (any_entry (acknowledged_at locator) bs w) (λ _ fine. cc fine)
            (λ miss _. any_entry-NoEntry (acknowledged_at locator) bs w miss))

  -- If acknowledging a route by its place returns no error, then the engine is not read-only, and in
  -- the world that it leaves one of the named edges shows an acknowledged entry at just this place.
  pub ack_route-Entry :
      (e : Engine W) (name locator reason : Text) (w : W)
      → (ack_route e name locator reason w).1 ≡ none
      → (e.read_only ≡ false)
        × Entry
            (acknowledged_at locator)
            (edges_named name e.edges)
            (ack_route e name locator reason w).0
  unfolding ack_route
  ack_route-Entry e name locator reason w =
      elim (Result-cases (gate_read_only e (codes "ack")))
        as (λ _.
          (ack_route e name locator reason w).1 ≡ none
          → (e.read_only ≡ false)
            × Entry (acknowledged_at locator) (edges_named name e.edges)
                (ack_route e name locator reason w).0) [
                  | inr (x, sealed) ↦ rw (sealed, ack_route) (λ fine. cc fine)
                  | inl (u, open_) ↦
                      rw (open_, ack_route)
                        (λ fine. (
                          gate_read_only-open e (codes "ack") open_,
                          confirm_ack_route-Entry (edges_named name e.edges) locator _ fine,
                        ))
                ]

  -- If the removing of an acknowledgement by its place returns no error, then the engine is not
  -- read-only, and in the world that it leaves none of the named edges that can be read shows
  -- an acknowledged entry at this place.
  pub unack_route-NoEntry :
      (e : Engine W) (name locator : Text) (w : W)
      → (unack_route e name locator w).1 ≡ none
      → (e.read_only ≡ false)
        × NoEntry
            (acknowledged_at locator)
            (edges_named name e.edges)
            (unack_route e name locator w).0
  unfolding unack_route
  unack_route-NoEntry e name locator w =
      elim (Result-cases (gate_read_only e (codes "unack")))
        as (λ _.
          (unack_route e name locator w).1 ≡ none
          → (e.read_only ≡ false)
            × NoEntry (acknowledged_at locator) (edges_named name e.edges)
                (unack_route e name locator w).0) [
                  | inr (x, sealed) ↦ rw (sealed, unack_route) (λ fine. cc fine)
                  | inl (u, open_) ↦
                      rw (open_, unack_route)
                        (λ fine. (
                          gate_read_only-open e (codes "unack") open_,
                          confirm_unack_route-NoEntry (edges_named name e.edges) locator _ fine,
                        ))
                ]

  -- Every entry of the edge that is not acknowledged is among the items.
  abbrev pub ListsUnknown : EdgeBinding W → W → List TriageItem → Type 0
  ListsUnknown b w items =
      (live : LiveEdgeState) × (b.provider.read_live_state w ≡ ok live)
      × ((u : Unparsed)
          → In u live.unparsed
          → is_acknowledged u.kind ≡ false
          → In (item_of b u) items)

  ListsUnknown-later :
      (b : EdgeBinding W) (w : W) (first rest : List TriageItem)
      → ListsUnknown b w rest
      → ListsUnknown b w (first ++ rest)
  ListsUnknown-later b w first rest (live, reads, all_) =
      (live, reads, λ u m t. In-append_right first (all_ u m t))

  triage_items-ListsUnknown :
      (bs : List (EdgeBinding W)) (w : W) (items : List TriageItem) (b : EdgeBinding W)
      → triage_items bs w ≡ ok items
      → In b bs
      → ListsUnknown b w items
  unfolding triage_items
  triage_items-ListsUnknown [] w items b h m = elim m [ ]
  triage_items-ListsUnknown (c ∷ bs) w items b h m =
      let (live, read, h1) =
        bind-eq-ok (map_err (read_edge_failed c.name) (c.provider.read_live_state w)) _ h in
      let (rest, others, h2) = bind-eq-ok (triage_items bs w) _ h1 in
      let first = map (item_of c) (real_unknown live.unparsed) in
      let whole : first ++ rest ≡ items = ground arith in
      subst (ListsUnknown b w) whole (elim (In-cons_cases m) [
        | inr later ↦
            ListsUnknown-later b w first rest (triage_items-ListsUnknown bs w rest b others later)
        | inl top ↦
            subst (λ (x : EdgeBinding W). ListsUnknown x w (first ++ rest)) (sym top)
              (
                live,
                map_err-eq-ok (read_edge_failed c.name) _ read,
                λ u n t. In-append rest (
                    In-map_item (item_of c) (
                      In-keep_if (λ (v : Unparsed). not (is_acknowledged v.kind)) n
                        (ground arith))),
              )
      ])

  items_real :
      (b : EdgeBinding W) (us : List Unparsed) (i : TriageItem)
      → In i (map (item_of b) (real_unknown us))
      → is_acknowledged i.unparsed.kind ≡ false
  items_real b [] i m = elim m [ ]
  items_real b (u ∷ us) i m = elim (Bool-cases (is_acknowledged u.kind)) [
    | inl acked ↦ items_real b us i (rw acked at m)
    | inr real ↦
        let kept : In i (item_of b u ∷ map (item_of b) (real_unknown us)) = rw real at m in
        elim (In-cons_cases kept) [
          | inl top ↦
              subst (λ (x : TriageItem). is_acknowledged x.unparsed.kind ≡ false) (sym top) real
          | inr later ↦ items_real b us i later
        ]
  ]

  triage_items-real :
      (bs : List (EdgeBinding W)) (w : W) (items : List TriageItem) (i : TriageItem)
      → triage_items bs w ≡ ok items
      → In i items
      → is_acknowledged i.unparsed.kind ≡ false
  unfolding triage_items
  triage_items-real [] w items i h m =
      let none_ : items ≡ [] = ground arith in elim (subst (In i) none_ m) [ ]
  triage_items-real (c ∷ bs) w items i h m =
      let (live, read, h1) =
        bind-eq-ok (map_err (read_edge_failed c.name) (c.provider.read_live_state w)) _ h in
      let (rest, others, h2) = bind-eq-ok (triage_items bs w) _ h1 in
      let first = map (item_of c) (real_unknown live.unparsed) in
      let whole : items ≡ first ++ rest = ground arith in
      elim (In-append_cases first (subst (In i) whole m)) [
        | inr later ↦ triage_items-real bs w rest i others later
        | inl now ↦ items_real c live.unparsed i now
      ]

  -- If the listing of what was not understood returns items, then each of the named edges was read,
  -- every entry of it that is not acknowledged is among the items, and no item is acknowledged.
  pub not_understood_complete :
      (e : Engine W) (name : Text) (w : W) (items : List TriageItem)
      → not_understood e name w ≡ ok items
      → ((b : EdgeBinding W) → In b (edges_named name e.edges) → ListsUnknown b w items)
        × ((i : TriageItem) → In i items → is_acknowledged i.unparsed.kind ≡ false)
  unfolding not_understood
  not_understood_complete e name w items h =
      let (listed, reads, h1) = bind-eq-ok (triage_items (edges_named name e.edges) w) _ h in
      let same : listed ≡ items = ground arith in
      let all_ : triage_items (edges_named name e.edges) w ≡ ok items =
        subst (λ (xs : List TriageItem). triage_items (edges_named name e.edges) w ≡ ok xs) same
          reads in
      (
        λ b m. triage_items-ListsUnknown (edges_named name e.edges) w items b all_ m,
        λ i m. triage_items-real (edges_named name e.edges) w items i all_ m,
      )
