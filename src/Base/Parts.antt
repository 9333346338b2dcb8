-- ===== src/Base/Parts.antt =====
-- What splitting a text at a separator gives, and the text back from it.
use Prim.Native.Char.{Char, code}
use Prim.Native.String.{String, [], ◌∷◌}
use text.Mathlib.TextEquality.{Char-path}
use mathlib.Core.Path.{◌≡◌, refl, sym, ap, ◌∙◌}
use mathlib.Core.Logic.{inl, inr}
use mathlib.Core.List.{List, ◌++◌}
use native.Mathlib.Omega.{arith}
use up_tck.Base.Tests.{eqb, Bool-cases}
use up_tck.Base.Text.{append, cons_part, split, split-cons}

cons_part-append :
    (c : Char) (part : String) (parts qs : List String)
    → cons_part c (List.◌∷◌ part parts) ++ qs ≡ cons_part c (List.◌∷◌ part (parts ++ qs))
unfolding cons_part
cons_part-append c part parts qs = refl

-- Splitting two texts with the separator between them gives the parts of both.
pub split-append :
    (sep : Char) (s t : String) → split sep (append s (sep ∷ t)) ≡ split sep s ++ split sep t
unfolding split append
split-append sep [] t = ground arith
split-append sep (c ∷ s) t =
    let (part, rest, e) = split-cons sep s in
    elim (Bool-cases (eqb (code c) (code sep))) [
      | inl same ↦ rw same (ap (λ ps. List.◌∷◌ [] ps) (split-append sep s t))
      | inr other ↦ rw other (
          ap (cons_part c) (split-append sep s t ∙ ap (λ ps. ps ++ split sep t) e)
          ∙ sym (
              ap (λ ps. cons_part c ps ++ split sep t) e
              ∙ cons_part-append c part rest (split sep t)))
    ]

-- The parts with the separator between them.
abbrev join : Char → List String → String
join sep List.[] = []
join sep (List.◌∷◌ part List.[]) = part
join sep (List.◌∷◌ part (List.◌∷◌ next parts)) = append part (sep ∷ join sep (List.◌∷◌ next parts))

join-cons_part :
    (sep c : Char) (part : String) (parts : List String)
    → join sep (cons_part c (List.◌∷◌ part parts)) ≡ c ∷ join sep (List.◌∷◌ part parts)
unfolding cons_part append
join-cons_part sep c part List.[] = refl
join-cons_part sep c part (List.◌∷◌ next parts) = refl

join-split : (sep : Char) (s : String) → join sep (split sep s) ≡ s
unfolding split append
join-split sep [] = refl
join-split sep (c ∷ s) =
    let (part, rest, e) = split-cons sep s in
    let before = ap (join sep) (sym e) ∙ join-split sep s in
    elim (Bool-cases (eqb (code c) (code sep))) [
      | inl same ↦ rw same (
          ap (λ ps. join sep (List.◌∷◌ [] ps)) e
          ∙ ap (λ u. sep ∷ u) before
          ∙ ap (λ d. d ∷ s) (sym (Char-path c sep (ground (arith, same)))))
      | inr other ↦ rw other (
          ap (λ ps. join sep (cons_part c ps)) e
          ∙ join-cons_part sep c part rest
          ∙ ap (λ u. c ∷ u) before)
    ]

-- A text is determined by its parts.
pub split-inj : (sep : Char) (s t : String) → split sep s ≡ split sep t → s ≡ t
split-inj sep s t e = sym (join-split sep s) ∙ ap (join sep) e ∙ join-split sep t
