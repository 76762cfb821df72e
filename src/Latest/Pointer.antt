-- ===== src/Latest/Pointer.antt =====
-- Device.latest_location, kept up to date with each new row, is what a recomputation would set.
use my_tracks.Base.{
  ℕ, Option, none, some, List, [], ◌∷◌, All, Bool, true, false, ◌==◌, compared_numbers, ◌≡◌, ◌≢◌,
  refl, ap, sym, ◌∙◌, inl, inr, Bool-cases, number_flip, if-cases,
}
use mathlib.Core.Option.{some-injective}
use my_tracks.Latest.{
  Location, DeviceRow, Database, update_latest, id_of, refresh_device_latest_location, find_row,
  pointed, replaces, note_for, note_location_created, create_location,
}
use my_tracks.Latest.Order.{better, newest, better_newer, better_older}
use my_tracks.Latest.Lookup.{IsDistinct, newest-own, newest-other, pointed-newest}

-- Each device points at the row that a recomputation would choose.
pub record IsCurrent (db : Database) : Type 0 where
  pub distinct : IsDistinct db.locations
  pub pointers : All (λ d. d.latest_location ≡ id_of (newest d.pk db.locations)) db.devices

module _ (x : Location) (rows : List Location) where
  abbrev IsDue : DeviceRow → Type 0
  IsDue d = d.latest_location ≡ id_of (newest d.pk rows)

  abbrev IsUpdated : DeviceRow → Type 0
  IsUpdated d = d.latest_location ≡ id_of (newest d.pk (x ∷ rows))

  replaced : (n : Option Location) → replaces x n ≡ true → better x n ≡ x
  replaced none e = refl
  replaced (some m) e = better_newer x m e

  kept : (n : Option Location) → replaces x n ≡ false → some (better x n) ≡ n
  kept none e = cc
  kept (some m) e = ap some (better_older x m e)

  -- One device, whose pointer was due: of another device than the new row's, or of this one.
  other_row : (d : DeviceRow) → (d.pk == x.device_id) ≡ false → IsDue d → IsUpdated d
  other_row d other due =
      due ∙ ap id_of (sym (newest-other d.pk x rows (number_flip x.device_id d.pk ∙ other)))

  own_row :
      (d : DeviceRow)
      → (d.pk == x.device_id) ≡ true
      → (b : Bool) → replaces x (newest x.device_id rows) ≡ b
      → (id_of (newest d.pk (x ∷ rows)) ≡ some (better x (newest d.pk rows)).id)
        × (replaces x (newest d.pk rows) ≡ b)
  own_row d own b r = (
    ap id_of (newest-own d.pk x rows (number_flip x.device_id d.pk ∙ own)),
    ap (λ k. replaces x (newest k rows)) ((compared_numbers.agree_iff d.pk x.device_id).0 own) ∙ r,
  )

  -- The rows of devices after the update, and without one.
  noted_rows :
      replaces x (newest x.device_id rows) ≡ true
      → (devices : List DeviceRow) → All IsDue devices
      → All IsUpdated (update_latest x.device_id (some x.id) devices)
  unfolding update_latest
  noted_rows r [] h = tt
  noted_rows r (d ∷ devices) h = (
    elim (Bool-cases (d.pk == x.device_id)) [
      | inl own ↦
          (let (chosen, newer) = own_row d own true r in
            rw own (sym (chosen ∙ ap (λ z. some z.id) (replaced _ newer))))
      | inr other ↦ rw other (other_row d other h.0)
    ],
    noted_rows r devices h.1,
  )

  unchanged_row :
      (d : DeviceRow) → replaces x (newest x.device_id rows) ≡ false → IsDue d → IsUpdated d
  unchanged_row d r due = elim (Bool-cases (d.pk == x.device_id)) [
    | inl own ↦
        (let (chosen, older) = own_row d own false r in
          due ∙ sym (chosen ∙ ap id_of (kept _ older)))
    | inr other ↦ other_row d other due
  ]

  unchanged_rows :
      replaces x (newest x.device_id rows) ≡ false
      → (devices : List DeviceRow) → All IsDue devices
      → All IsUpdated devices
  unchanged_rows r [] h = tt
  unchanged_rows r (d ∷ devices) h = (unchanged_row d r h.0, unchanged_rows r devices h.1)

  unowned_rows :
      (devices : List DeviceRow)
      → find_row x.device_id devices ≡ none
      → All IsDue devices
      → All IsUpdated devices
  unfolding find_row
  unowned_rows [] e h = tt
  unowned_rows (d ∷ devices) e h = elim (Bool-cases (d.pk == x.device_id)) [
    | inl own ↦ absurd (let wrong : some d ≡ none = rw own at e in cc)
    | inr other ↦ (other_row d other h.0, unowned_rows devices (rw other at e) h.1)
  ]

  -- The row that the signal reads is one of the device's.
  found_row :
      (devices : List DeviceRow) (d : DeviceRow)
      → find_row x.device_id devices ≡ some d
      → All IsDue devices
      → d.latest_location ≡ id_of (newest x.device_id rows)
  unfolding find_row
  found_row [] d e h = absurd (let wrong = e in cc)
  found_row (c ∷ devices) d e h = elim (Bool-cases (c.pk == x.device_id)) [
    | inl own ↦
        ap (λ z. z.latest_location) (sym (some-injective c d (rw own at e)))
        ∙ h.0
        ∙ ap (λ k. id_of (newest k rows)) ((compared_numbers.agree_iff c.pk x.device_id).0 own)
    | inr other ↦ found_row devices d (rw other at e) h.1
  ]

note_for-IsCurrent :
    (x : Location) (db : Database) (row : Option DeviceRow)
    → IsCurrent db
    → All (λ m. m.id ≢ x.id) db.locations
    → find_row x.device_id db.devices ≡ row
    → IsCurrent (note_for x row (record db { locations = x ∷ db.locations }))
note_for-IsCurrent x db none c fresh e = record {
  distinct = (fresh, c.distinct);
  pointers = unowned_rows x db.locations db.devices e c.pointers;
}
note_for-IsCurrent x db (some d) c fresh e =
    let found =
      pointed-newest x db.locations c.distinct fresh x.device_id d.latest_location
        (found_row x db.locations db.devices d e c.pointers) in
    if-cases IsCurrent (replaces x (pointed d.latest_location (x ∷ db.locations)))
      (λ newer. record {
        distinct = (fresh, c.distinct);
        pointers =
            noted_rows x db.locations (ap (replaces x) (sym found) ∙ newer) db.devices c.pointers;
      })
      (λ older. record {
        distinct = (fresh, c.distinct);
        pointers =
            unchanged_rows x db.locations (ap (replaces x) (sym found) ∙ older) db.devices
              c.pointers;
      })

-- A new location row with an id of its own keeps every device's pointer at the row that a recomputation
-- over all rows of the device would choose.
pub create_location-IsCurrent :
    (x : Location) (db : Database)
    → IsCurrent db
    → All (λ m. m.id ≢ x.id) db.locations
    → IsCurrent (create_location x db)
unfolding create_location note_location_created
create_location-IsCurrent x db c fresh = note_for-IsCurrent x db _ c fresh refl

module _ (pk : ℕ) (rows : List Location) where
  update_latest_same :
      (devices : List DeviceRow)
      → All (λ d. d.latest_location ≡ id_of (newest d.pk rows)) devices
      → update_latest pk (id_of (newest pk rows)) devices ≡ devices
  unfolding update_latest
  update_latest_same [] h = refl
  update_latest_same (d ∷ devices) h = elim (Bool-cases (d.pk == pk)) [
    | inl own ↦
        let due =
          sym
            (h.0 ∙ ap (λ k. id_of (newest k rows)) ((compared_numbers.agree_iff d.pk pk).0 own)) in
        rw own (
          ap
            (λ z.
              record d { latest_location = z } ∷ update_latest pk (id_of (newest pk rows)) devices)
            due
          ∙ ap (λ rest. d ∷ rest) (update_latest_same devices h.1))
    | inr other ↦ rw other (ap (λ rest. d ∷ rest) (update_latest_same devices h.1))
  ]

-- Where every pointer is up to date, a recomputation for any device changes nothing.
pub refresh_device_latest_location_same :
    (pk : ℕ) (db : Database) → IsCurrent db → refresh_device_latest_location pk db ≡ db
unfolding refresh_device_latest_location
refresh_device_latest_location_same pk db c =
    ap (λ devices. record db { devices = devices })
      (update_latest_same pk db.locations db.devices c.pointers)
