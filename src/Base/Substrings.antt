-- ===== src/Base/Substrings.antt =====
-- The methods of Python's `str` that look for a part of a text.
use Prim.Native.Nat.{ℕ, zero, suc, ◌-◌}
use Prim.Native.Char.{Char, code}
use Prim.Native.String.{String, [], ◌∷◌}
use mathlib.Core.Bool.{Bool, true, ◌&&◌}
use mathlib.Core.List.{List}
use up_tck.Base.Tests.{if◌then◌else◌, eqb, ltb}
use up_tck.Base.Text.{append, starts_with, size, cons_part}

-- `s.split(sep)` for a separator of several characters. The number counts the characters of an
-- occurrence that are still to be left out.
unfoldable pub split_from : ℕ → String → String → List String
unfolding starts_with size cons_part
split_from n sep [] = List.◌∷◌ [] List.[]
split_from (suc n) sep (c ∷ s) = split_from n sep s
split_from zero sep (c ∷ s) =
    let kept = cons_part c (split_from zero sep s) in
    let rest = List.◌∷◌ [] (split_from (size sep - 1) sep s) in
    if starts_with (c ∷ s) sep then rest else kept

unfoldable pub split_on : String → String → List String
unfolding split_from
split_on sep s = split_from zero sep s

-- `s.replace(c, t)` for one character.
unfoldable pub replace : Char → String → String → String
unfolding append
replace old new [] = []
replace old new (c ∷ s) =
    let rest = replace old new s in if eqb (code c) (code old) then append new rest else c ∷ rest

-- `s[1:]`
unfoldable pub tail : String → String
tail [] = []
tail (c ∷ s) = s

-- Whether the text can be encoded in `limit` codes: 128 for ASCII, 256 for ISO 8859-1.
unfoldable pub is_below : ℕ → String → Bool
is_below limit [] = true
is_below limit (c ∷ s) = ltb (code c) limit && is_below limit s

-- `s.endswith(p)`
unfoldable pub ends_with : String → String → Bool
unfolding starts_with
ends_with [] p = starts_with p []
ends_with (c ∷ s) p =
    let rest = ends_with s p in if eqb (size p) (size (c ∷ s)) then starts_with (c ∷ s) p else rest
