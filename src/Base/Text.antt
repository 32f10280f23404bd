-- ===== src/Base/Text.antt =====
-- Texts cut at a character and put together again, as `str::split` and `join` do.
use Prim.Native.Char.{Char, code}
use Prim.Native.Nat.{ℕ}
use Prim.Native.String.{String, ◌++◌}
use mathlib.Core.List.{List, [], ◌∷◌}
use mathlib.Core.Bool.{Bool, true, false}
use dsh_rs.Base.Tests.{◌==◌, if◌then◌else◌}

abbrev pub push_front : Char → List String → List String
push_front c [] = String.◌∷◌ c "" ∷ []
push_front c (s ∷ ss) = String.◌∷◌ c s ∷ ss

-- `text.split(c)`, the character by its code: never no part.
unfoldable pub split : ℕ → String → List String
split at String.[] = "" ∷ []
split at (String.◌∷◌ c s) =
    let rest = split at s in if code c == at then "" ∷ rest else push_front c rest

-- `parts.join(separator)`
unfoldable pub join : String → List String → String
join sep [] = ""
join sep (s ∷ []) = s
join sep (s ∷ t ∷ ts) = s ++ (sep ++ join sep (t ∷ ts))

abbrev pub is_nil : String → Bool
is_nil String.[] = true
is_nil (String.◌∷◌ c s) = false

-- `text.ends_with(c)`, the character by its code
unfoldable pub ends_in : ℕ → String → Bool
ends_in at String.[] = false
ends_in at (String.◌∷◌ c String.[]) = code c == at
ends_in at (String.◌∷◌ c s) = ends_in at s
