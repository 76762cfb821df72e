-- ===== src/Saving/Owners.antt =====
-- What saving a location does to the rows of devices: app/mqtt/plugin.py (save_location_to_db).
use my_tracks.Base.{
  ℕ, ◌+◌, String, Option, none, some, List, [], ◌∷◌, ◌++◌, All, Bool, true, false, not, ◌==◌,
  compared_numbers, compared_texts, if◌then◌else◌, ◌≡◌, ◌≢◌, refl, arith, sym, ap, ◌∙◌, subst,
  eq_iff, if-cases, number_self, number_differs, ◌<◌,
}
use my_tracks.Base.Int.{ℤ}
use my_tracks.Base.Table.{get}
use my_tracks.Extraction.{Value, Data}
use my_tracks.Devices.{Account, Device, Store, now, update_device, devices_named}
use my_tracks.Devices.Updates.{
  word_of, text_at, either, resolve_owner, Updates, updates_for, if_unowned, kept_or, owner_or,
  apply_updates,
}
use my_tracks.Devices.Keys.{IsKeyOf, IsKeyed-IsKeyOf, devices_named-All}
use my_tracks.Saving.{
  fresh_device, get_or_create, location_columns, Saved, store_with, store_location, save_for,
  save_location_to_db,
}
use my_tracks.Saving.Sound.{IsSound}

-- The owner that a message names: the account of the certificate's common name, or without one that of
-- the topic's user.
abbrev pub named_owner : Data → List Account → Option ℕ
named_owner location_data users =
    resolve_owner
      (either (text_at (get location_data "tls_cn")) (text_at (get location_data "mqtt_user")))
      users

module _ (location_data : Data) (users : List Account) (t : ℕ) where
  -- A device from which a location was received at t.
  pub record IsTouched (d d' : Device) : Type 0 where
    pub pk : d'.pk ≡ d.pk
    pub device_id : d'.device_id ≡ d.device_id
    pub name : d'.name ≡ d.name
    pub is_online : d'.is_online ≡ true
    pub last_seen : d'.last_seen ≡ t
    pub last_location_at : d'.last_location_at ≡ some t
    pub mqtt_user : d'.mqtt_user ≡ (
        if text_at (get location_data "mqtt_user") == ""
        then d.mqtt_user
        else text_at (get location_data "mqtt_user"))
    pub owned : (pk : ℕ) → d.owner ≡ some pk → d'.owner ≡ some pk
    pub unowned : d.owner ≡ none → d'.owner ≡ named_owner location_data users

  apply_updates-IsTouched :
      (d : Device) → IsTouched d (apply_updates (updates_for location_data users t d) d)
  unfolding apply_updates updates_for
  apply_updates-IsTouched d = record {
    pk = refl;
    device_id = refl;
    name = refl;
    is_online = online d.is_online;
    last_seen = refl;
    last_location_at = refl;
    mqtt_user = ground (arith, eq_iff d.mqtt_user (text_at (get location_data "mqtt_user")));
    owned = λ pk e. owned d.owner _ pk e;
    unowned = λ e. unowned d.owner _ e;
  }
    where
      online : (b : Bool) → kept_or b (if not b then some true else none) ≡ true
      online true = refl
      online false = refl

      owned :
          (o found : Option ℕ) (pk : ℕ) → o ≡ some pk → owner_or o (if_unowned o found) ≡ some pk
      owned none found pk e = cc
      owned (some k) found pk e = e

      unowned : (o found : Option ℕ) → o ≡ none → owner_or o (if_unowned o found) ≡ found
      unowned none none e = refl
      unowned none (some k) e = refl
      unowned (some k) found e = cc

  -- A table in which the row of one key was touched, and no other row changed.
  pub data Rows (key : ℕ) : List Device → List Device → Type 0 where
    nil : Rows key [] []
    cons :
        (d d' : Device) {before after : List Device}
        → (d.pk ≡ key → IsTouched d d')
        → (d.pk ≢ key → d' ≡ d)
        → Rows key before after
        → Rows key (d ∷ before) (d' ∷ after)

  update_device-Rows :
      (x : Device) (devices : List Device)
      → IsKeyOf devices x
      → Rows x.pk devices
          (update_device x.pk (apply_updates (updates_for location_data users t x)) devices)
  unfolding update_device
  update_device-Rows x [] h = nil
  update_device-Rows x (d ∷ devices) h =
      cons d _ (touched (d.pk == x.pk) refl) (other (d.pk == x.pk) refl)
        (update_device-Rows x devices h.1)
    where
      u : Updates
      u = updates_for location_data users t x

      touched :
          (b : Bool)
          → (d.pk == x.pk) ≡ b
          → d.pk ≡ x.pk
          → IsTouched d (if b then apply_updates u d else d)
      touched true e same =
          subst (λ y. IsTouched d (apply_updates (updates_for location_data users t y) d))
            (h.0 same) (apply_updates-IsTouched d)
      touched false e same =
          absurd (let wrong = (compared_numbers.agree_iff d.pk x.pk).1 same in cc)

      other :
          (b : Bool) → (d.pk == x.pk) ≡ b → d.pk ≢ x.pk → (if b then apply_updates u d else d) ≡ d
      other true e differs = absurd (differs ((compared_numbers.agree_iff d.pk x.pk).0 e))
      other false e differs = refl

update_device-last :
    (change : Device → Device) (x : Device) (devices : List Device)
    → All (λ (d : Device). d.pk < x.pk) devices
    → update_device x.pk change (devices ++ x ∷ []) ≡ devices ++ change x ∷ []
unfolding update_device
update_device-last change x [] h = rw (number_self x.pk) refl
update_device-last change x (d ∷ devices) h =
    rw (number_differs d.pk x.pk (λ same. absurd (omega (arith, h.0))))
      (ap (λ l. d ∷ l) (update_device-last change x devices h.1))

store_location-devices :
    (accepts : Data → Bool) (pk : ℕ) (location_data : Data) (store : Store)
    → (store_location accepts pk location_data store).1.devices ≡ store.devices
unfolding store_location
store_location-devices accepts pk location_data store =
    stored (get location_data "latitude") (get location_data "longitude") _
  where
    stored :
        (latitude longitude : Option Value) (timestamp : Option ℤ)
        → (store_with accepts pk location_data store latitude longitude timestamp).1.devices
          ≡ store.devices
    stored none longitude timestamp = refl
    stored (some _) none timestamp = refl
    stored (some _) (some _) none = refl
    stored (some _) (some _) (some timestamp) =
        if-cases (λ (r : Option Saved × Store). r.1.devices ≡ store.devices)
          (accepts (location_columns location_data)) (λ _. refl) (λ _. refl)

-- What happens to the devices when a location of the device named `device_id` is saved.
pub data Received (location_data : Data) (device_id : String) (store : Store)
    (result : Option Saved × Store) : Type 0 where
  created :
      (x : Device)
      → devices_named device_id store.devices ≡ []
      → result.1.devices ≡ store.devices ++ x ∷ []
      → IsTouched location_data store.users
          (store.clock (store.readings + 1))
          (fresh_device device_id store)
          x
      → Received location_data device_id store result
  updated :
      (d : Device)
      → devices_named device_id store.devices ≡ d ∷ []
      → Rows location_data store.users (now store) d.pk store.devices result.1.devices
      → Received location_data device_id store result
  ambiguous :
      (d e : Device) (others : List Device)
      → devices_named device_id store.devices ≡ d ∷ e ∷ others
      → result ≡ (none, store)
      → Received location_data device_id store result

module _ (accepts : Data → Bool) (location_data : Data) (device_id : String) (store : Store)
    (sound : IsSound store) where
  found :
      (rows : List Device)
      → devices_named device_id store.devices ≡ rows
      → All (IsKeyOf store.devices) rows
      → Received location_data device_id store
          (save_for accepts location_data (get_or_create device_id rows store))
  found [] e h =
      created _ e
        (store_location-devices accepts store.next_device location_data _
          ∙ update_device-last _ (fresh_device device_id store) store.devices sound.row_keys)
        (apply_updates-IsTouched location_data store.users _ (fresh_device device_id store))
  found (d ∷ []) e h = updated d e (
      subst (Rows location_data store.users (now store) d.pk store.devices)
        (sym (store_location-devices accepts d.pk location_data _))
        (update_device-Rows location_data store.users (now store) d store.devices h.0))
  found (d ∷ c ∷ others) e h = ambiguous d c others e refl

  -- A location of a device makes its row one that is online and was heard of now, with the topic's user;
  -- a row that has an owner keeps it, and one that has none gets the account of the certificate's common
  -- name, or without one that of the topic's user. A device id without a row gets one; no other row
  -- changes; and where two rows have the device id, nothing is saved at all.
  pub save_location_to_db-Received :
      word_of (get location_data "device") ≡ some device_id
      → Received location_data device_id store (save_location_to_db accepts location_data store)
  unfolding save_location_to_db
  save_location_to_db-Received named = rw named (
      found (devices_named device_id store.devices) refl
        (devices_named-All _ device_id store.devices (IsKeyed-IsKeyOf store.devices sound.keyed)))
