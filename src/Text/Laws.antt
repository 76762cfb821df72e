-- ===== src/Text/Laws.antt =====
-- Laws of splitting and joining at slashes.
use Prim.Native.Char.{Char, code}
use Prim.Native.String.{[], ◌∷◌, ◌++◌}
use mathlib.Core.List.{List}
use text.Mathlib.TextEquality.{Char-path}
use text.Mathlib.TextLemmas.{nil-append, cons-append}
use my_tracks.Base.{
  String, Option, none, some, ◌==◌, compared_numbers, ◌≢◌, ◌≡◌, refl, arith, All, ap, sym,
  Bool-cases, inl, inr, ◌∙◌,
}
use my_tracks.Text.{push_head, split_slash, join_slash, extend, span_slash, IsLevel}

IsLevel-push_head :
    (c : Char) (ws : List String) → code c ≢ b'/' → All IsLevel ws → All IsLevel (push_head c ws)
IsLevel-push_head c List.[] h k = ((h, tt), tt)
IsLevel-push_head c (List.◌∷◌ w ws) h k = ((h, k.0), k.1)

pub IsLevel-split_slash : (s : String) → All IsLevel (split_slash s)
unfolding split_slash
IsLevel-split_slash [] = (tt, tt)
IsLevel-split_slash (c ∷ s) = elim (Bool-cases (code c == b'/')) [
  | inl slash ↦ rw slash (tt, IsLevel-split_slash s)
  | inr other ↦
      rw other (IsLevel-push_head c (split_slash s) (ground arith) (IsLevel-split_slash s))
]

join_slash-push_head :
    (c : Char) (ws : List String) → join_slash (push_head c ws) ≡ c ∷ join_slash ws
unfolding join_slash
join_slash-push_head c List.[] = refl
join_slash-push_head c (List.◌∷◌ w List.[]) = refl
join_slash-push_head c (List.◌∷◌ w (List.◌∷◌ v vs)) = rw cons-append

slash-append : (c : Char) (s : String) → code c ≡ b'/' → "/" ++ s ≡ c ∷ s
slash-append c s e = rw (cons-append, nil-append) (ap (λ (d : Char). d ∷ s) (Char-path _ c (sym e)))

join_slash-cons_nil :
    (ws : List String) → ws ≢ List.[] → join_slash (List.◌∷◌ "" ws) ≡ "/" ++ join_slash ws
unfolding join_slash
join_slash-cons_nil List.[] h = absurd (h refl)
join_slash-cons_nil (List.◌∷◌ v vs) h = nil-append _

pub split_slash-ne-nil : (s : String) → split_slash s ≢ List.[]
unfolding split_slash
split_slash-ne-nil [] = cc
split_slash-ne-nil (c ∷ s) = ground arith

-- Joining the parts of a text gives the text back.
pub join_slash-split_slash : (s : String) → join_slash (split_slash s) ≡ s
unfolding split_slash
join_slash-split_slash [] = unfold join_slash in refl
join_slash-split_slash (c ∷ s) = elim (Bool-cases (code c == b'/')) [
  | inl slash ↦ rw slash (
      join_slash-cons_nil (split_slash s) (split_slash-ne-nil s)
      ∙ slash-append c _ (ground arith)
      ∙ ap (λ t. c ∷ t) (join_slash-split_slash s))
  | inr other ↦
      rw other (join_slash-push_head c (split_slash s) ∙ ap (λ t. c ∷ t) (join_slash-split_slash s))
]

-- A text from its part before the first slash and what follows.
abbrev pub glue : String × Option String → String
glue (w, none) = w
glue (w, some r) = w ++ ("/" ++ r)

glue-extend : (c : Char) (p : String × Option String) → glue (extend c p) ≡ c ∷ glue p
glue-extend c (w, none) = refl
glue-extend c (w, some r) = cons-append c w _

pub glue-span_slash : (s : String) → glue (span_slash s) ≡ s
unfolding span_slash
glue-span_slash [] = refl
glue-span_slash (c ∷ s) = elim (Bool-cases (code c == b'/')) [
  | inl slash ↦ rw slash (nil-append _ ∙ slash-append c s (ground arith))
  | inr other ↦ rw other (glue-extend c (span_slash s) ∙ ap (λ t. c ∷ t) (glue-span_slash s))
]

pub IsLevel-span_slash : (s : String) → IsLevel (span_slash s).0
unfolding span_slash
IsLevel-span_slash [] = tt
IsLevel-span_slash (c ∷ s) = elim (Bool-cases (code c == b'/')) [
  | inl slash ↦ rw slash tt
  | inr other ↦ rw other (ground arith, IsLevel-span_slash s)
]

-- The parts of a text from its first part.
abbrev pub parts_of : String × Option String → List String
parts_of (w, none) = List.◌∷◌ w List.[]
parts_of (w, some r) = List.◌∷◌ w (split_slash r)

parts_of-extend :
    (c : Char) (p : String × Option String) → parts_of (extend c p) ≡ push_head c (parts_of p)
parts_of-extend c (w, none) = refl
parts_of-extend c (w, some r) = refl

-- Splitting everywhere is splitting once, then the rest.
pub split_slash-eq-parts_of : (s : String) → split_slash s ≡ parts_of (span_slash s)
unfolding split_slash span_slash
split_slash-eq-parts_of [] = refl
split_slash-eq-parts_of (c ∷ s) = elim (Bool-cases (code c == b'/')) [
  | inl slash ↦ rw slash
  | inr other ↦ rw other (rw (split_slash-eq-parts_of s) (sym (parts_of-extend c (span_slash s))))
]

pub span_slash-append : (w r : String) → IsLevel w → span_slash (w ++ ("/" ++ r)) ≡ (w, some r)
unfolding span_slash
span_slash-append [] r h = rw (nil-append, cons-append, nil-append) refl
span_slash-append (c ∷ w) r h = rw cons-append (ground (arith, span_slash-append w r))

pub span_slash_self : (w : String) → IsLevel w → span_slash w ≡ (w, none)
unfolding span_slash
span_slash_self [] h = refl
span_slash_self (c ∷ w) h = ground (arith, span_slash_self w)

pub split_slash-append :
    (w r : String) → IsLevel w → split_slash (w ++ ("/" ++ r)) ≡ List.◌∷◌ w (split_slash r)
split_slash-append w r h =
    split_slash-eq-parts_of (w ++ ("/" ++ r)) ∙ ap parts_of (span_slash-append w r h)

pub split_slash_self : (w : String) → IsLevel w → split_slash w ≡ List.◌∷◌ w List.[]
split_slash_self w h = split_slash-eq-parts_of w ∙ ap parts_of (span_slash_self w h)
