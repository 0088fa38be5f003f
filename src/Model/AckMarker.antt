-- ===== src/Model/AckMarker.antt =====
-- internal/model/model.go: the crenel-ack marker. The regular expression
-- `crenel-ack:(?:([a-z0-9.*-]+):)?([a-z0-9-]+)` is matched as `FindStringSubmatch` does: at the
-- leftmost place where it fits, greedily, with the host group tried first.
use crenel.Prelude.{
  ℕ, Bool, not, ◌&&◌, ◌||◌, [], ◌∷◌, ◌++◌, Option, none, some, Text, codes, all, is_nil, leb, ◌==◌,
  nat_eq, has_prefix, to_lower, if◌then◌else◌,
}

abbrev pub ack_marker_prefix : Text
ack_marker_prefix = codes "crenel-ack:"

-- `[a-z0-9-]`
abbrev pub is_slug : ℕ → Bool
is_slug c = leb b'a' c && leb c b'z' || leb b'0' c && leb c b'9' || c == b'-'

-- `[a-z0-9.*-]`
abbrev pub is_host_char : ℕ → Bool
is_host_char c = is_slug c || c == b'.' || c == b'*'

-- The longest run of a class of characters, and what follows it.
unfoldable pub span : (ℕ → Bool) → Text → Text × Text
span p [] = ([], [])
span p (c ∷ s) = let (run, rest) = span p s in if p c then (c ∷ run, rest) else ([], c ∷ s)

abbrev some_run : Text × Text → Option Text
some_run ([], rest) = none
some_run (c ∷ run, rest) = some (c ∷ run)

-- `([a-z0-9-]+)`
unfoldable pub match_reason : Text → Option Text
match_reason s = some_run (span is_slug s)

-- behind the host group, which is a run that is not empty and a colon
abbrev match_host : Text × Text → Option Text
match_host ([], rest) = none
match_host (c ∷ run, []) = none
match_host (c ∷ run, d ∷ rest) = if d == b':' then match_reason rest else none

abbrev or_else : Option Text → Option Text → Option Text
or_else none o = o
or_else (some r) o = some r

-- behind the prefix
unfoldable pub match_tail : Text → Option Text
unfolding match_reason
match_tail s = or_else (match_host (span is_host_char s)) (match_reason s)

unfoldable pub drop_text : Text → Text → Text
drop_text [] s = s
drop_text (c ∷ p) [] = []
drop_text (c ∷ p) (d ∷ s) = drop_text p s

unfoldable pub parse_ack_marker : Text → Option Text
unfolding match_tail
parse_ack_marker [] = none
parse_ack_marker (c ∷ s) =
    or_else
      (if has_prefix (c ∷ s) ack_marker_prefix
        then match_tail (drop_text ack_marker_prefix (c ∷ s))
        else none)
      (parse_ack_marker s)

unfoldable pub ack_marker : Text → Text
ack_marker reason = ack_marker_prefix ++ reason

unfoldable pub ack_marker_for : Text → Text → Text
ack_marker_for host reason = ack_marker_prefix ++ (to_lower host ++ (b':' ∷ reason))

-- `ValidAckReason`
unfoldable pub valid_ack_reason : Text → Bool
valid_ack_reason reason = not (is_nil reason) && all is_slug reason
