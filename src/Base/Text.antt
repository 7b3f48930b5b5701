-- ===== src/Base/Text.antt =====
-- What the program asks of a Python `str`: whether it is empty, and what `strip` leaves of it.
use Prim.Native.Nat.{ℕ}
use Prim.Native.Char.{code}
use Prim.Native.String.{String}
use mathlib.Core.Bool.{Bool, true, ◌&&◌, ◌||◌}
use aurelix.Base.Tests.{leb, ◌==◌, nat_eq, string_eq, if◌then◌else◌}

-- `c.isspace()`, by code points.
pub is_space : ℕ → Bool
is_space c =
    (leb 9 c && leb c 13)
    || (leb 28 c && leb c 32)
    || c == 133
    || c == 160
    || c == 5760
    || (leb 8192 c && leb c 8202)
    || c == 8232
    || c == 8233
    || c == 8239
    || c == 8287
    || c == 12288

-- `not s.strip()`
unfoldable pub is_blank : String → Bool
unfolding is_space
is_blank String.[] = true
is_blank (String.◌∷◌ c s) = is_space (code c) && is_blank s

-- `not s`
abbrev pub is_empty : String → Bool
is_empty s = s == ""

-- `s.lstrip()`
lstrip : String → String
lstrip String.[] = String.[]
lstrip (String.◌∷◌ c s) = if is_space (code c) then lstrip s else String.◌∷◌ c s

-- `s.rstrip()`
rstrip : String → String
rstrip String.[] = String.[]
rstrip (String.◌∷◌ c s) =
    if is_space (code c) && is_blank s then String.[] else String.◌∷◌ c (rstrip s)

-- `s.strip()`
unfoldable pub strip : String → String
unfolding is_space is_blank lstrip rstrip
strip s = rstrip (lstrip s)
