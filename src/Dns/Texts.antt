-- ===== src/Dns/Texts.antt =====
-- What the drivers share on texts: the body of a response as an error shows it.
use crenel.Prelude.{ℕ, suc, zero, [], ◌∷◌, ◌++◌, Text, length, trim_space, leb, if◌then◌else◌}

abbrev pub take : ℕ → Text → Text
take zero s = []
take (suc n) [] = []
take (suc n) (c ∷ s) = c ∷ take n s

-- trimmed, and cut behind 200 bytes, where a byte is a character
unfoldable pub clip : Text → Text
clip s = let t = trim_space s in if leb (length t) 200 then t else take 200 t ++ 8230 ∷ []
