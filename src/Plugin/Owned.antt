-- ===== src/Plugin/Owned.antt =====
-- The owners of devices, when a location or a last will is saved: app/mqtt/plugin.py.
use my_tracks.Base.{
  ℕ, String, Option, none, some, List, [], ◌∷◌, ◌++◌, Bool, true, false, ◌==◌, compared_numbers,
  ◌≡◌, refl, sym, ap, ◌∙◌, subst, if-cases, Bool-cases, Option-cases, inl, inr, ◌⊎◌,
}
use mathlib.Core.Option.{some-injective}
use my_tracks.Base.Table.{get}
use my_tracks.Extraction.{Data}
use my_tracks.Devices.{Account, Device, Store, update_device, devices_named}
use my_tracks.Devices.Updates.{word_of}
use my_tracks.Saving.{
  save_named, save_location_to_db, save_lwt_for, lwt_named, save_lwt_to_db, Saved,
}
use my_tracks.Saving.Sound.{IsSound}
use my_tracks.Saving.Owners.{
  Rows, nil, cons, Received, created, updated, ambiguous, save_location_to_db-Received,
}
use my_tracks.Plugin.{device_at}

-- A device that the table has, with its owner.
abbrev pub IsOwned : ℕ → ℕ → List Device → Type 0
IsOwned pk owner devices = (d : Device) × (device_at pk devices ≡ some d) × (d.owner ≡ some owner)

-- A row and what has become of it.
record IsKept (who : ℕ) (d d' : Device) : Type 0 where
  pk : d'.pk ≡ d.pk
  owner : d.owner ≡ some who → d'.owner ≡ some who

save_location_to_db_unnamed :
    (accepts : Data → Bool) (location_data : Data) (store : Store)
    → word_of (get location_data "device") ≡ none
    → save_location_to_db accepts location_data store ≡ (none, store)
unfolding save_location_to_db
save_location_to_db_unnamed accepts location_data store e =
    ap (save_named accepts location_data store) e

module _ (pk owner : ℕ) where
  IsOwned-cons :
      (d d' : Device) (before after : List Device)
      → IsKept owner d d'
      → (IsOwned pk owner before → IsOwned pk owner after)
      → IsOwned pk owner (d ∷ before)
      → IsOwned pk owner (d' ∷ after)
  unfolding device_at
  IsOwned-cons d d' before after kept rest (x, at, own) = elim (Bool-cases (d.pk == pk)) [
    | inl same ↦
        let mine : d ≡ x = some-injective _ _ (rw same at at) in
        (
          d',
          rw (ap (λ k. k == pk) kept.pk ∙ same) refl,
          kept.owner (ap (λ (z : Device). z.owner) mine ∙ own),
        )
    | inr other ↦
        let later = rest (x, rw other at at, own) in
        (later.0, rw (ap (λ k. k == pk) kept.pk ∙ other) later.1, later.2)
  ]

  IsOwned-append :
      (before more : List Device) → IsOwned pk owner before → IsOwned pk owner (before ++ more)
  unfolding device_at
  IsOwned-append [] more (x, at, own) = absurd (let wrong = at in cc)
  IsOwned-append (d ∷ before) more h =
      IsOwned-cons d d before (before ++ more) (record { pk = refl; owner = λ e. e })
        (IsOwned-append before more) h

  IsOwned-update_device :
      (key : ℕ) (change : Device → Device)
      → ((d : Device) → IsKept owner d (change d))
      → (devices : List Device) → IsOwned pk owner devices
      → IsOwned pk owner (update_device key change devices)
  unfolding update_device
  IsOwned-update_device key change keeps [] h = h
  IsOwned-update_device key change keeps (d ∷ devices) h =
      IsOwned-cons d _ devices _
        (if-cases (IsKept owner d) (d.pk == key) (λ _. keeps d)
          (λ _. record { pk = refl; owner = λ e. e }))
        (IsOwned-update_device key change keeps devices) h

  Rows-IsOwned :
      (location_data : Data) (users : List Account) (t key : ℕ) {before after : List Device}
      → Rows location_data users t key before after
      → IsOwned pk owner before
      → IsOwned pk owner after
  Rows-IsOwned location_data users t key nil h = h
  Rows-IsOwned location_data users t key (cons d d' touched other rows) h =
      IsOwned-cons d d' _ _ (elim (compared (d.pk == key) refl) [ inl k ↦ k | inr k ↦ k ])
        (Rows-IsOwned location_data users t key rows) h
    where
      compared : (b : Bool) → (d.pk == key) ≡ b → IsKept owner d d' ⊎ IsKept owner d d'
      compared true e =
          let seen = touched ((compared_numbers.agree_iff d.pk key).0 e) in
          inl (record { pk = seen.pk; owner = seen.owned owner })
      compared false e =
          let same =
            other
              (λ found. let wrong = sym e ∙ (compared_numbers.agree_iff d.pk key).1 found in cc) in
          inr (record {
            pk = ap (λ (z : Device). z.pk) same;
            owner = λ own. ap (λ (z : Device). z.owner) same ∙ own;
          })

  Received-IsOwned :
      (location_data : Data) (device_id : String) (store : Store) (result : Option Saved × Store)
      → Received location_data device_id store result
      → IsOwned pk owner store.devices
      → IsOwned pk owner result.1.devices
  Received-IsOwned location_data device_id store result (created x _ added _) h =
      subst (IsOwned pk owner) (sym added) (IsOwned-append store.devices (x ∷ []) h)
  Received-IsOwned location_data device_id store result (updated d _ rows) h =
      Rows-IsOwned location_data store.users _ d.pk rows h
  Received-IsOwned location_data device_id store result (ambiguous _ _ _ _ same) h =
      subst (λ (r : Option Saved × Store). IsOwned pk owner r.1.devices) (sym same) h

  pub save_location_to_db-IsOwned :
      (accepts : Data → Bool) (location_data : Data) (store : Store)
      → IsSound store
      → IsOwned pk owner store.devices
      → IsOwned pk owner (save_location_to_db accepts location_data store).1.devices
  save_location_to_db-IsOwned accepts location_data store sound h =
      elim (Option-cases (word_of (get location_data "device"))) [
        | inl unnamed ↦
            subst (λ (r : Option Saved × Store). IsOwned pk owner r.1.devices)
              (sym (save_location_to_db_unnamed accepts location_data store unnamed)) h
        | inr (device_id, named) ↦
            Received-IsOwned location_data device_id store _
              (save_location_to_db-Received accepts location_data device_id store sound named) h
      ]

  pub save_lwt_to_db-IsOwned :
      (lwt_data : Data) (store : Store)
      → IsOwned pk owner store.devices
      → IsOwned pk owner (save_lwt_to_db lwt_data store).1.devices
  unfolding save_lwt_to_db
  save_lwt_to_db-IsOwned lwt_data store h = saved (word_of (get lwt_data "device"))
    where
      found :
          (device_id : String) (rows : List Device)
          → IsOwned pk owner (save_lwt_for lwt_data device_id rows store).1.devices
      found device_id [] = h
      found device_id (_ ∷ _ ∷ _) = h
      found device_id (d ∷ []) =
          IsOwned-update_device d.pk _ (λ e. record { pk = refl; owner = λ own. own }) store.devices
            h

      saved : (o : Option String) → IsOwned pk owner (lwt_named lwt_data store o).1.devices
      saved none = h
      saved (some device_id) = found device_id (devices_named device_id store.devices)
