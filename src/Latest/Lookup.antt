-- ===== src/Latest/Lookup.antt =====
-- Looking a row up by its id, and the pointer of a device.
use my_tracks.Base.{
  ℕ, Option, some, List, [], ◌∷◌, All, true, false, ◌==◌, compared_numbers, ◌≡◌, ◌≢◌, refl, ap, sym,
  ◌∙◌, subst, inl, inr, Bool-cases, Option-cases, number_self, number_differs,
}
use mathlib.Core.Option.{some-injective}
use my_tracks.Latest.{
  Location, location_is_newer_report, of_device, order_by_report, latest_location_queryset, id_of,
  find_location, pointed,
}
use my_tracks.Latest.Order.{better, newest, newest-cons, better_newer, better_older}

-- No two rows have one id.
abbrev pub IsDistinct : List Location → Type 0
IsDistinct [] = Unit
IsDistinct (l ∷ rows) = All (λ m. m.id ≢ l.id) rows × IsDistinct rows

module _ (P : Location → Type 0) where
  -- What holds of all rows holds of the newest one.
  newest-All :
      (pk : ℕ) (rows : List Location) (y : Location) → All P rows → newest pk rows ≡ some y → P y
  unfolding latest_location_queryset of_device order_by_report
  newest-All pk [] y h e = absurd (let wrong = e in cc)
  newest-All pk (l ∷ rows) y h e = elim (Bool-cases (l.device_id == pk)) [
    | inr other ↦ newest-All pk rows y h.1 (sym (newest-cons pk l rows ∙ rw other refl) ∙ e)
    | inl own ↦
        let chosen : better l (newest pk rows) ≡ y =
          some-injective _ _ (sym (newest-cons pk l rows ∙ rw own refl) ∙ e) in
        subst P chosen (elim (Option-cases (newest pk rows)) [
          | inl empty ↦ rw empty h.0
          | inr (m, best) ↦ elim (Bool-cases (location_is_newer_report l m)) [
            | inl newer ↦ rw (best, newer) h.0
            | inr older ↦ rw (best, older) (newest-All pk rows m h.1 best)
          ]
        ])
  ]

module _ (x : Location) (rows : List Location) where
  find_location_fresh : (id : ℕ) → x.id ≢ id → find_location id (x ∷ rows) ≡ find_location id rows
  unfolding find_location
  find_location_fresh id d = rw (number_differs x.id id d) refl

  find_location_self : find_location x.id (x ∷ rows) ≡ some x
  unfolding find_location
  find_location_self = rw (number_self x.id) refl

module _ (pk : ℕ) (l : Location) (rows : List Location) where
  pub newest-own :
      (l.device_id == pk) ≡ true → newest pk (l ∷ rows) ≡ some (better l (newest pk rows))
  newest-own own = newest-cons pk l rows ∙ rw own refl

  pub newest-other : (l.device_id == pk) ≡ false → newest pk (l ∷ rows) ≡ newest pk rows
  newest-other other = newest-cons pk l rows ∙ rw other refl

-- A foreign key leads back to the row that it was taken from.
find_location-newest :
    (pk : ℕ) (rows : List Location) (y : Location)
    → IsDistinct rows
    → newest pk rows ≡ some y
    → find_location y.id rows ≡ some y
unfolding latest_location_queryset of_device order_by_report
find_location-newest pk [] y distinct e = absurd (let wrong = e in cc)
find_location-newest pk (l ∷ rows) y distinct e =
    let kept : (m : Location) → newest pk rows ≡ some m → find_location m.id (l ∷ rows) ≡ some m =
      λ m best.
        find_location_fresh l rows m.id
          (λ same. newest-All (λ k. k.id ≢ l.id) pk rows m distinct.0 best (sym same))
        ∙ find_location-newest pk rows m distinct.1 best in
    elim (Bool-cases (l.device_id == pk)) [
      | inr other ↦ kept y (sym (newest-other pk l rows other) ∙ e)
      | inl own ↦
          let chosen : better l (newest pk rows) ≡ y =
            some-injective _ _ (sym (newest-own pk l rows own) ∙ e) in
          elim (Option-cases (newest pk rows)) [
            | inl empty ↦
                subst (λ z. find_location z.id (l ∷ rows) ≡ some z)
                  (ap (better l) (sym empty) ∙ chosen) (find_location_self l rows)
            | inr (m, best) ↦ elim (Bool-cases (location_is_newer_report l m)) [
              | inl newer ↦
                  subst (λ z. find_location z.id (l ∷ rows) ≡ some z)
                    (sym (better_newer l m newer) ∙ ap (better l) (sym best) ∙ chosen)
                    (find_location_self l rows)
              | inr older ↦
                  subst (λ z. find_location z.id (l ∷ rows) ≡ some z)
                    (sym (better_older l m older) ∙ ap (better l) (sym best) ∙ chosen) (kept m best)
            ]
          ]
    ]

-- What the signal finds at the pointer of the new row's device.
module _ (x : Location) (rows : List Location) (distinct : IsDistinct rows)
    (fresh : All (λ m. m.id ≢ x.id) rows) where
  pub pointed-newest :
      (pk : ℕ) (pointer : Option ℕ)
      → pointer ≡ id_of (newest pk rows)
      → pointed pointer (x ∷ rows) ≡ newest pk rows
  pointed-newest pk pointer e = elim (Option-cases (newest pk rows)) [
    | inl empty ↦ ap (λ p. pointed p (x ∷ rows)) (e ∙ ap id_of empty) ∙ sym empty
    | inr (m, best) ↦
        ap (λ p. pointed p (x ∷ rows)) (e ∙ ap id_of best)
        ∙ find_location_fresh x rows m.id
            (λ same. newest-All (λ k. k.id ≢ x.id) pk rows m fresh best (sym same))
        ∙ find_location-newest pk rows m distinct best
        ∙ sym best
  ]
