-- ===== src/Model/AckRoundTrip.antt =====
-- What `AckMarker` and `AckMarkerFor` write is read back by `ParseAckMarker`.
use crenel.Prelude.{
  ℕ, Bool, true, false, [], ◌∷◌, ◌++◌, some, Text, all, ◌≡◌, refl, arith, to_lower, has_prefix, ◌≢◌,
}
use crenel.Model.AckMarker.{
  ack_marker_prefix, is_slug, is_host_char, span, match_reason, match_tail, parse_ack_marker,
  drop_text, ack_marker, ack_marker_for, valid_ack_reason,
}

span-all : (p : ℕ → Bool) (s : Text) → all p s ≡ true → span p s ≡ (s, [])
unfolding span
span-all p [] h = refl
span-all p (c ∷ s) h = ground (arith, span-all p s)

span-stop :
    (p : ℕ → Bool) (s : Text) (d : ℕ) (rest : Text)
    → all p s ≡ true
    → p d ≡ false
    → span p (s ++ d ∷ rest) ≡ (s, d ∷ rest)
unfolding span
span-stop p [] d rest h k = ground arith
span-stop p (c ∷ s) d rest h k = ground (arith, span-stop p s d rest)

match_reason-slug : (s : Text) → valid_ack_reason s ≡ true → match_reason s ≡ some s
unfolding match_reason valid_ack_reason
match_reason-slug [] h = cc
match_reason-slug (c ∷ s) h = rw (span-all is_slug (c ∷ s) h)

slug-host : (s : Text) → all is_slug s ≡ true → all is_host_char s ≡ true
slug-host [] h = refl
slug-host (c ∷ s) h = ground (arith, slug-host s)

match_tail-slug : (s : Text) → valid_ack_reason s ≡ true → match_tail s ≡ some s
unfolding match_tail valid_ack_reason
match_tail-slug [] h = cc
match_tail-slug (c ∷ s) h =
    rw (span-all is_host_char (c ∷ s) (slug-host (c ∷ s) h)) (match_reason-slug (c ∷ s) h)

-- A host that is not empty and keeps to the characters of the marker's host group.
abbrev pub IsMarkerHost : Text → Type 0
IsMarkerHost host = (host ≢ []) × (all is_host_char (to_lower host) ≡ true)

match_tail-host :
    (host reason : Text)
    → host ≢ []
    → all is_host_char host ≡ true
    → valid_ack_reason reason ≡ true
    → match_tail (host ++ b':' ∷ reason) ≡ some reason
unfolding match_tail
match_tail-host [] reason ne h k = absurd (ne refl)
match_tail-host (c ∷ host) reason ne h k =
    rw (span-stop is_host_char (c ∷ host) b':' reason h refl) (rw (match_reason-slug reason k))

parse-prefix :
    (s : Text) {r : Text}
    → match_tail s ≡ some r
    → parse_ack_marker (ack_marker_prefix ++ s) ≡ some r
unfolding parse_ack_marker has_prefix drop_text
parse-prefix s h = rw h

to_lower-ne-nil : (s : Text) → s ≢ [] → to_lower s ≢ []
unfolding to_lower
to_lower-ne-nil [] h = h
to_lower-ne-nil (c ∷ s) h = cc

-- A valid reason is read back from the bare marker, and from the marker of any host that is not
-- empty and has only letters, digits, `.`, `*` and `-`.
pub parse_ack_marker-ack_marker :
    (host reason : Text)
    → valid_ack_reason reason ≡ true
    → IsMarkerHost host
    → (parse_ack_marker (ack_marker reason) ≡ some reason)
      × (parse_ack_marker (ack_marker_for host reason) ≡ some reason)
unfolding ack_marker ack_marker_for
parse_ack_marker-ack_marker host reason v h = (
  parse-prefix reason (match_tail-slug reason v),
  parse-prefix _ (match_tail-host (to_lower host) reason (to_lower-ne-nil host h.0) h.1 v),
)
