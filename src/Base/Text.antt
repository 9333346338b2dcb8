-- ===== src/Base/Text.antt =====
-- The methods of Python's `str` that the program calls, by recursion on the text.
use Prim.Native.Nat.{ℕ, zero, suc, ◌-◌}
use Prim.Native.Char.{Char, code}
use Prim.Native.String.{String, [], ◌∷◌}
use mathlib.Core.Path.{◌≡◌, refl, ap, ◌∙◌}
use mathlib.Core.Bool.{Bool, true, false, ◌&&◌, ◌||◌}
use mathlib.Core.List.{List}
use up_tck.Base.Tests.{if◌then◌else◌, eqb, leb}

-- `s + t`
unfoldable pub append : String → String → String
append [] t = t
append (c ∷ s) t = c ∷ append s t

-- `c.isspace()`, the characters that `strip()` takes away.
unfoldable pub is_space : Char → Bool
is_space ch =
    let c = code ch in
    (leb 9 c && leb c 13)
    || (leb 28 c && leb c 32)
    || eqb c 0x85
    || eqb c 0xa0
    || eqb c 0x1680
    || (leb 0x2000 c && leb c 0x200a)
    || eqb c 0x2028
    || eqb c 0x2029
    || eqb c 0x202f
    || eqb c 0x205f
    || eqb c 0x3000

unfoldable pub lstrip : (Char → Bool) → String → String
lstrip drop [] = []
lstrip drop (c ∷ s) = let rest = lstrip drop s in if drop c then rest else c ∷ s

-- An empty rest of which the first character is dropped too stays empty.
unfoldable pub cons_kept : (Char → Bool) → Char → String → String
cons_kept drop c [] = if drop c then [] else c ∷ []
cons_kept drop c (d ∷ s) = c ∷ d ∷ s

unfoldable pub rstrip : (Char → Bool) → String → String
unfolding cons_kept
rstrip drop [] = []
rstrip drop (c ∷ s) = cons_kept drop c (rstrip drop s)

-- `s.strip()` with `is_space`, `s.strip('"')` with the test for a quote.
unfoldable pub strip : (Char → Bool) → String → String
unfolding lstrip rstrip
strip drop s = rstrip drop (lstrip drop s)

abbrev pub is_quote : Char → Bool
is_quote c = eqb (code c) b'"'

-- `s.startswith(p)`
unfoldable pub starts_with : String → String → Bool
starts_with s [] = true
starts_with [] (d ∷ p) = false
starts_with (c ∷ s) (d ∷ p) = eqb (code c) (code d) && starts_with s p

-- `len(s)`
unfoldable pub size : String → ℕ
size [] = 0
size (c ∷ s) = suc (size s)

-- `p in s`
unfoldable pub contains_text : String → String → Bool
unfolding starts_with
contains_text p [] = starts_with [] p
contains_text p (c ∷ s) = starts_with (c ∷ s) p || contains_text p s

-- `s.replace(p, "")`: the occurrences of `p` from the left, which do not overlap. The number counts
-- the characters of an occurrence that are still to be left out.
unfoldable pub remove_from : ℕ → String → String → String
unfolding starts_with
remove_from n p [] = []
remove_from (suc n) p (c ∷ s) = remove_from n p s
remove_from zero p (c ∷ s) =
    let kept = c ∷ remove_from zero p s in
    let rest = remove_from (size p - 1) p s in if starts_with (c ∷ s) p then rest else kept

if_false : {A : Type 0} (b d : Bool) (x y : A) → (b || d) ≡ false → (if b then x else y) ≡ y
if_false true d x y e = cc e
if_false false d x y e = refl

or_false : (b d : Bool) → (b || d) ≡ false → d ≡ false
or_false true d e = cc e
or_false false d e = e

remove_from-absent : (p s : String) → contains_text p s ≡ false → remove_from zero p s ≡ s
unfolding remove_from contains_text
remove_from-absent p [] e = refl
remove_from-absent p (c ∷ s) e =
    if_false (starts_with (c ∷ s) p) (contains_text p s) _ _ e
    ∙ ap (λ t. c ∷ t) (remove_from-absent p s (or_false (starts_with (c ∷ s) p) _ e))

unfoldable pub remove_all : String → String → String
unfolding remove_from
remove_all p s = remove_from zero p s

-- The mark of bytes in front of a text without it is there, and is all that `remove_all` takes away.
pub contains_text-mark : (s : String) → contains_text "BYTES:" (append "BYTES:" s) ≡ true
unfolding contains_text starts_with append
contains_text-mark s = refl

pub remove_all-mark :
    (s : String) → contains_text "BYTES:" s ≡ false → remove_all "BYTES:" (append "BYTES:" s) ≡ s
unfolding remove_all remove_from starts_with append size
remove_all-mark s e = remove_from-absent "BYTES:" s e

-- The character in front of the first part.
unfoldable pub cons_part : Char → List String → List String
cons_part c List.[] = List.◌∷◌ (c ∷ []) List.[]
cons_part c (List.◌∷◌ part parts) = List.◌∷◌ (c ∷ part) parts

-- `s.split(sep)` for a separator of one character: always at least one part.
unfoldable pub split : Char → String → List String
unfolding cons_part
split sep [] = List.◌∷◌ [] List.[]
split sep (c ∷ s) =
    let parts = split sep s in
    if eqb (code c) (code sep) then List.◌∷◌ [] parts else cons_part c parts

cons_part-cons :
    (c : Char) (parts : List String)
    → (part : String) × (rest : List String) × (cons_part c parts ≡ List.◌∷◌ part rest)
unfolding cons_part
cons_part-cons c List.[] = (c ∷ [], List.[], refl)
cons_part-cons c (List.◌∷◌ part parts) = (c ∷ part, parts, refl)

split_if-cons :
    (b : Bool) (c : Char) (parts : List String)
    → (part : String) × (rest : List String) × ((if b then List.◌∷◌ [] parts else cons_part c parts)
        ≡ List.◌∷◌ part rest)
split_if-cons true c parts = ([], parts, refl)
split_if-cons false c parts = cons_part-cons c parts

-- A split gives at least one part.
pub split-cons :
    (sep : Char) (s : String)
    → (part : String) × (rest : List String) × (split sep s ≡ List.◌∷◌ part rest)
unfolding split
split-cons sep [] = ([], List.[], refl)
split-cons sep (c ∷ s) = split_if-cons (eqb (code c) (code sep)) c (split sep s)

-- The capital letters' small ones.
abbrev small_letters : List (ℕ × Char)
small_letters =
    List.◌∷◌ (65, "a")
      (List.◌∷◌ (66, "b")
        (List.◌∷◌ (67, "c")
          (List.◌∷◌ (68, "d")
            (List.◌∷◌ (69, "e")
              (List.◌∷◌ (70, "f")
                (List.◌∷◌ (71, "g")
                  (List.◌∷◌ (72, "h")
                    (List.◌∷◌ (73, "i")
                      (List.◌∷◌ (74, "j")
                        (List.◌∷◌ (75, "k")
                          (List.◌∷◌ (76, "l")
                            (List.◌∷◌ (77, "m")
                              (List.◌∷◌ (78, "n")
                                (List.◌∷◌ (79, "o")
                                  (List.◌∷◌ (80, "p")
                                    (List.◌∷◌ (81, "q")
                                      (List.◌∷◌ (82, "r")
                                        (List.◌∷◌ (83, "s")
                                          (List.◌∷◌ (84, "t")
                                            (List.◌∷◌ (85, "u")
                                              (List.◌∷◌ (86, "v")
                                                (List.◌∷◌ (87, "w")
                                                  (List.◌∷◌ (88, "x")
                                                    (List.◌∷◌ (89, "y")
                                                      (List.◌∷◌ (90, "z")
                                                        List.[])))))))))))))))))))))))))

unfoldable pub lower_from : List (ℕ × Char) → Char → Char
lower_from List.[] c = c
lower_from (List.◌∷◌ (n, small) table) c = if eqb n (code c) then small else lower_from table c

-- `s.lower()`, on the letters of ASCII; other characters stay as they are.
unfoldable pub lower : String → String
unfolding lower_from
lower [] = []
lower (c ∷ s) = lower_from small_letters c ∷ lower s
