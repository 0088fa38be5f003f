-- ===== src/Prelude/Strings.antt =====
-- Texts as lists of code points, with what the code uses of Go's `strings` and `net` packages.
-- Names of hosts, services and edges are ASCII, so case folding is over A-Z.
use Prim.Native.Nat.{ℕ, ◌+◌, ◌-◌}
use Prim.Native.Char.{code}
use Prim.Native.String.{String}
use mathlib.Core.Path.{◌≡◌, refl, sym, ◌∙◌}
use mathlib.Core.Logic.{◌↔◌}
use mathlib.Core.Bool.{Bool, true, false, ◌&&◌, ◌||◌}
use mathlib.Core.List.{List, [], ◌∷◌, map, reverse}
use mathlib.Core.Option.{Option, none, some}
use native.Mathlib.Omega.{arith}
use crenel.Prelude.Tests.{leb, if◌then◌else◌, Eq, ◌==◌, nat_eq}
use crenel.Prelude.Lists.{contains}

abbrev pub Text : Type 0
Text = List ℕ

abbrev pub codes : String → Text
codes String.[] = []
codes (String.◌∷◌ c s) = code c ∷ codes s

abbrev pub text_beq : Text → Text → Bool
text_beq [] [] = true
text_beq (x ∷ a) (y ∷ b) = x == y && text_beq a b
text_beq [] (y ∷ b) = false
text_beq (x ∷ a) [] = false

pub text_beq_iff : (a b : Text) → (text_beq a b ≡ true) ↔ (a ≡ b)
text_beq_iff [] [] = ground arith
text_beq_iff (x ∷ a) (y ∷ b) = ground (arith, text_beq_iff a b)
text_beq_iff [] (y ∷ b) = ground arith
text_beq_iff (x ∷ a) [] = ground arith

instance abbrev pub text_eq : Eq Text
text_eq = record { same = text_beq; decides = text_beq_iff }

pub text_beq_refl : (a : Text) → text_beq a a ≡ true
text_beq_refl a = (text_beq_iff a a).1 refl

-- `strings.ToLower`
abbrev pub lower_code : ℕ → ℕ
lower_code c = if leb b'A' c && leb c b'Z' then c + 32 else c

unfoldable pub to_lower : Text → Text
to_lower = map lower_code

-- `strings.ToUpper`
abbrev pub upper_code : ℕ → ℕ
upper_code c = if leb b'a' c && leb c b'z' then c - 32 else c

unfoldable pub to_upper : Text → Text
to_upper = map upper_code

-- `strings.EqualFold`
unfoldable pub equal_fold : Text → Text → Bool
equal_fold a b = to_lower a == to_lower b

pub equal_fold_iff : (a b : Text) → (equal_fold a b ≡ true) ↔ (to_lower a ≡ to_lower b)
unfolding equal_fold
equal_fold_iff a b = text_beq_iff (to_lower a) (to_lower b)

pub equal_fold_refl : (a : Text) → equal_fold a a ≡ true
equal_fold_refl a = (equal_fold_iff a a).1 refl

pub equal_fold_sym : (a b : Text) → equal_fold a b ≡ true → equal_fold b a ≡ true
equal_fold_sym a b h = (equal_fold_iff b a).1 (sym ((equal_fold_iff a b).0 h))

pub equal_fold_trans :
    (a b c : Text) → equal_fold a b ≡ true → equal_fold b c ≡ true → equal_fold a c ≡ true
equal_fold_trans a b c h k =
    (equal_fold_iff a c).1 ((equal_fold_iff a b).0 h ∙ (equal_fold_iff b c).0 k)

-- `strings.HasPrefix`, the text first
unfoldable pub has_prefix : Text → Text → Bool
has_prefix s [] = true
has_prefix [] (y ∷ p) = false
has_prefix (x ∷ s) (y ∷ p) = x == y && has_prefix s p

-- `strings.HasSuffix`, the text first
unfoldable pub has_suffix : Text → Text → Bool
has_suffix [] suffix = suffix == []
has_suffix (x ∷ s) suffix = (x ∷ s) == suffix || has_suffix s suffix

-- `strings.TrimSuffix`, the text first
unfoldable pub trim_suffix : Text → Text → Text
trim_suffix [] suffix = []
trim_suffix (x ∷ s) suffix = if (x ∷ s) == suffix then [] else x ∷ trim_suffix s suffix

-- the ASCII white space of `unicode.IsSpace`
abbrev pub is_space : ℕ → Bool
is_space c = leb 9 c && leb c 13 || c == 32

abbrev pub trim_left : Text → Text
trim_left [] = []
trim_left (x ∷ s) = if is_space x then trim_left s else x ∷ s

-- `strings.TrimSpace`
unfoldable pub trim_space : Text → Text
trim_space s = reverse (trim_left (reverse (trim_left s)))

-- What stands before and after the last `c`; `none` where `strings.LastIndex` is negative.
unfoldable pub split_last : ℕ → Text → Option (Text × Text)
split_last c [] = none
split_last c (x ∷ s) = elim (split_last c s) [
  | some (before, after) ↦ some (x ∷ before, after)
  | none ↦ if x == c then some ([], s) else none
]

drop_prefix : Text → Text → Text
drop_prefix [] s = s
drop_prefix (y ∷ p) [] = []
drop_prefix (y ∷ p) (x ∷ s) = drop_prefix p s

-- What stands behind the first occurrence of a text that is not empty.
unfoldable pub after_first : Text → Text → Option Text
unfolding drop_prefix
after_first sub [] = none
after_first sub (x ∷ s) =
    if has_prefix (x ∷ s) sub then some (drop_prefix sub (x ∷ s)) else after_first sub s

-- The host of `net.SplitHostPort`, `none` where that returns an error: the port stands behind the
-- last colon, a host with colons stands in brackets, and there are no other brackets.
bracketed : Text → Option Text
bracketed rest = elim (split_last b']' rest) [
  | some (host, []) ↦ if contains host b'[' || contains host b']' then none else some host
  | some (host, _ ∷ _) ↦ none
  | none ↦ none
]

unfoldable pub split_host : Text → Option Text
unfolding bracketed
split_host s = elim (split_last b':' s) [
  | none ↦ none
  | some ([], port) ↦ if contains port b'[' || contains port b']' then none else some []
  | some (x ∷ host, port) ↦
      if contains port b'[' || contains port b']'
      then none
      else if x == b'['
      then bracketed host
      else if contains (x ∷ host) b':' || contains (x ∷ host) b'[' || contains (x ∷ host) b']'
      then none
      else some (x ∷ host)
]

to_lower_example : to_lower (codes "App.Example") ≡ codes "app.example"
unfolding to_lower
to_lower_example = refl

split_host_examples :
    (split_host (codes "10.0.0.5:443") ≡ some (codes "10.0.0.5"))
    × (split_host (codes "[::1]:443") ≡ some (codes "::1"))
    × (split_host (codes "::1") ≡ none)
    × (split_host (codes "home") ≡ none)
unfolding split_host split_last
split_host_examples = (refl, refl, refl, refl)

trim_examples :
    (trim_space (codes "  a b ") ≡ codes "a b")
    × (trim_suffix (codes "a.zone.") (codes ".") ≡ codes "a.zone")
    × (after_first (codes "://") (codes "http://h") ≡ some (codes "h"))
unfolding trim_space trim_suffix after_first has_prefix
trim_examples = (refl, refl, refl)
