-- ===== src/Prelude/Strings.antt =====
-- `trim` on strings, as JavaScript trims them.
use Prim.Native.Nat.{ℕ}
use mathlib.Core.Bool.{Bool, ◌&&◌, ◌||◌}
use mathlib.Core.List.{[], ◌∷◌}
use alpha_shadow.Prelude.Tests.{leb, ◌==◌, if◌then◌else◌}
use alpha_shadow.Prelude.Lists.{any, all}
use alpha_shadow.Prelude.Equality.{Text}

-- The code units that `trim` removes.
abbrev pub is_space : ℕ → Bool
is_space c =
    leb 9 c && leb c 13
    || any (λ s. c == s) (32 ∷ 160 ∷ 5760 ∷ 8232 ∷ 8233 ∷ 8239 ∷ 8287 ∷ 12_288 ∷ 65_279 ∷ [])
    || leb 8192 c && leb c 8202

-- `text.trim() === ''`.
unfoldable pub is_blank : Text → Bool
is_blank text = all is_space text

abbrev pub trim_start : Text → Text
trim_start [] = []
trim_start (c ∷ rest) = let later = trim_start rest in if is_space c then later else c ∷ rest

-- A character in front of what is left of the text after it.
abbrev pub with_kept : ℕ → Text → Text
with_kept c [] = if is_space c then [] else c ∷ []
with_kept c (d ∷ rest) = c ∷ d ∷ rest

abbrev pub trim_end : Text → Text
trim_end [] = []
trim_end (c ∷ rest) = with_kept c (trim_end rest)

-- `text.trim()`.
abbrev pub trim : Text → Text
trim text = trim_end (trim_start text)
