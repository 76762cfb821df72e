-- ===== src/Base/Table.antt =====
-- Python dictionaries with text keys, as association lists; the order of the entries is not used.
use my_tracks.Base.Tests.{◌==◌, compared_texts, if◌then◌else◌, Bool-cases}
use my_tracks.Base.Lists.{All}
use Prim.Native.String.{String}
use mathlib.Core.Path.{◌≡◌, subst}
use mathlib.Core.Logic.{inl, inr}
use mathlib.Core.Bool.{true, false}
use mathlib.Core.Option.{Option, none, some}
use mathlib.Core.List.{List, [], ◌∷◌}
use native.Mathlib.Omega.{arith}
use text.Mathlib.TextEquality.{eq_iff}

abbrev pub Table {ℓ} : Type ℓ → Type ℓ
Table V = List (String × V)

module _ {ℓ} {V : Type ℓ} where
  -- table.get(key)
  unfoldable pub get : Table V → String → Option V
  get [] key = none
  get ((k, v) ∷ rest) key = let found = get rest key in if k == key then some v else found

  -- table.pop(key, None)
  unfoldable pub pop : Table V → String → Table V
  pop [] key = []
  pop ((k, v) ∷ rest) key = let kept = pop rest key in if k == key then kept else (k, v) ∷ kept

  -- table[key] = value
  unfoldable pub put : Table V → String → V → Table V
  unfolding pop
  put table key value = (key, value) ∷ pop table key

  pub get-pop :
      (table : Table V) (key other : String)
      → get (pop table key) other ≡ (if key == other then none else get table other)
  unfolding get pop
  get-pop [] key other = ground arith
  get-pop ((k, v) ∷ rest) key other =
      ground (arith, get-pop rest key other, eq_iff k key, eq_iff k other, eq_iff key other)

  pub get-put :
      (table : Table V) (key other : String) (value : V)
      → get (put table key value) other ≡ (if key == other then some value else get table other)
  unfolding get put
  get-put table key other value = ground (arith, get-pop table key other)

  -- Every entry of a table.
  module _ {κ} (P : String × V → Type κ) where
    pub pop-All : (table : Table V) (key : String) → All P table → All P (pop table key)
    unfolding pop
    pop-All [] key h = h
    pop-All ((k, v) ∷ rest) key (p, h) =
        elim (k == key) as (λ b. All P (if b then pop rest key else (k, v) ∷ pop rest key)) [
          | true ↦ pop-All rest key h
          | false ↦ (p, pop-All rest key h)
        ]

    pub put-All :
        (table : Table V) (key : String) (value : V)
        → P (key, value)
        → All P table
        → All P (put table key value)
    unfolding put
    put-All table key value p h = (p, pop-All table key h)

    pub get-All :
        (table : Table V) (key : String) {value : V}
        → All P table
        → get table key ≡ some value
        → P (key, value)
    unfolding get
    get-All [] key h e = cc
    get-All ((k, v) ∷ rest) key {value} (p, h) e = elim (Bool-cases (k == key)) [
      | inl same ↦
          let value_same : v ≡ value = ground arith in
          subst (λ x. P (key, x)) value_same (subst (λ x. P (x, v)) ((eq_iff k key).0 same) p)
      | inr other ↦ get-All rest key h (ground arith)
    ]

pub ruleset table_laws = (get-pop, get-put)
