-- ===== src/Saving/Sound.antt =====
-- The keys of the tables and the pointers to the latest locations, after a location is saved.
use my_tracks.Base.{
  ℕ, ◌+◌, ◌<◌, String, Option, none, some, List, [], ◌∷◌, All, All-append, Bool, compared_numbers,
  compared_texts, ◌≡◌, refl, arith, sym, ap, ◌∙◌, if-cases, number_differs, subst,
}
use my_tracks.Base.Int.{ℤ}
use my_tracks.Base.Table.{get}
use my_tracks.Extraction.{Value, Data}
use my_tracks.Latest
use my_tracks.Latest.{
  create_location, note_location_created, note_for, replaces, pointed, id_of,
  latest_location_queryset, of_device, order_by_report,
}
use my_tracks.Latest.Order.{newest}
use my_tracks.Latest.Lookup.{newest-other}
use my_tracks.Latest.Pointer.{IsCurrent, create_location-IsCurrent}
use my_tracks.Devices.Keys.{
  IsKeyed, All-map, row_keys-update_device, update_device-IsKeyed, append-IsKeyed,
  devices_named-All,
}
use my_tracks.Devices.{Device, Store, WaypointRow, Transition, devices_named}
use my_tracks.Devices.Updates.{word_of, Updates, apply_updates}
use my_tracks.Saving.{
  fresh_device, add_device, get_or_create, location_row, insert_location, location_columns, Saved,
  store_with, store_location, touch, save_for, save_named, save_lwt_for, lwt_named, save_lwt_to_db,
  save_named, save_location_to_db,
}

-- Each device has a key of its own below the next one, each location one below its next, and its device's; and each device points
-- at the row that a recomputation would choose.
pub record IsSound (store : Store) : Type 0 where
  pub current : IsCurrent store.latest
  pub location_keys :
      All (λ (l : Latest.Location). l.id < store.next_location) store.latest.locations
  pub device_keys :
      All (λ (l : Latest.Location). l.device_id < store.next_device) store.latest.locations
  pub row_keys : All (λ (d : Device). d.pk < store.next_device) store.devices
  pub keyed : IsKeyed store.devices

-- A device without locations has no newest one.
newest-none :
    (pk : ℕ) (rows : List Latest.Location)
    → All (λ (l : Latest.Location). l.device_id < pk) rows
    → newest pk rows ≡ none
unfolding latest_location_queryset of_device order_by_report
newest-none pk [] h = refl
newest-none pk (l ∷ rows) h =
    newest-other pk l rows (number_differs l.device_id pk (λ same. absurd (omega arith)))
    ∙ newest-none pk rows h.1

note_for-locations :
    (l : Latest.Location) (row : Option Latest.DeviceRow) (db : Latest.Database)
    → (note_for l row db).locations ≡ db.locations
note_for-locations l none db = refl
note_for-locations l (some d) db =
    if-cases (λ (x : Latest.Database). x.locations ≡ db.locations)
      (replaces l (pointed d.latest_location db.locations)) (λ _. refl) (λ _. refl)

create_location-locations :
    (l : Latest.Location) (db : Latest.Database)
    → (create_location l db).locations ≡ l ∷ db.locations
unfolding create_location note_location_created
create_location-locations l db = note_for-locations l _ _

module _ (store : Store) (sound : IsSound store) where
  add_device-IsSound : (device_id : String) → IsSound (add_device device_id store)
  add_device-IsSound device_id = record {
    current = record {
      distinct = sound.current.distinct;
      pointers = (
        sym (ap id_of (newest-none store.next_device store.latest.locations sound.device_keys)),
        sound.current.pointers,
      );
    };
    location_keys = sound.location_keys;
    device_keys = All-map _ _ store.latest.locations (λ l below. omega arith) sound.device_keys;
    row_keys =
        All-append _ store.devices _
          (All-map _ _ store.devices (λ d below. omega arith) sound.row_keys) (omega arith, tt);
    keyed = append-IsKeyed store.devices (fresh_device device_id store) sound.row_keys sound.keyed;
  }

  touch-IsSound : (u : Updates) (pk : ℕ) → IsSound (touch u pk store)
  unfolding apply_updates
  touch-IsSound u pk = record {
    current = sound.current;
    location_keys = sound.location_keys;
    device_keys = sound.device_keys;
    row_keys =
        row_keys-update_device _ pk (apply_updates u) (λ d. refl) store.devices sound.row_keys;
    keyed = update_device-IsKeyed pk (apply_updates u) (λ d. refl) store.devices sound.keyed;
  }

  insert_location-IsSound :
      (pk : ℕ) (timestamp : ℤ) (location_data : Data)
      → pk < store.next_device
      → IsSound (insert_location pk timestamp location_data store)
  insert_location-IsSound pk timestamp location_data below =
      let row = location_row pk timestamp location_data store in
      let inserted = create_location-locations row store.latest in
      record {
        current = create_location-IsCurrent row store.latest sound.current (
            All-map _ _ store.latest.locations (λ l less same. absurd (omega arith))
              sound.location_keys);
        location_keys =
            subst (All (λ (l : Latest.Location). l.id < store.next_location + 1)) (sym inserted) (
              omega arith,
              All-map _ _ store.latest.locations (λ l less. omega arith) sound.location_keys,
            );
        device_keys =
            subst (All (λ (l : Latest.Location). l.device_id < store.next_device)) (sym inserted)
              (below, sound.device_keys);
        row_keys = sound.row_keys;
        keyed = sound.keyed;
      }

  store_location-IsSound :
      (accepts : Data → Bool) (pk : ℕ) (location_data : Data)
      → pk < store.next_device
      → IsSound (store_location accepts pk location_data store).1
  unfolding store_location
  store_location-IsSound accepts pk location_data below =
      stored (get location_data "latitude") (get location_data "longitude") _
    where
      stored :
          (latitude longitude : Option Value) (timestamp : Option ℤ)
          → IsSound (store_with accepts pk location_data store latitude longitude timestamp).1
      stored none longitude timestamp = sound
      stored (some _) none timestamp = sound
      stored (some _) (some _) none = sound
      stored (some _) (some _) (some timestamp) =
          if-cases (λ (r : Option Saved × Store). IsSound r.1)
            (accepts (location_columns location_data))
            (λ _. insert_location-IsSound pk timestamp location_data below) (λ _. sound)

-- From the device on.
save_for-IsSound :
    (accepts : Data → Bool) (location_data : Data) (d : Device) (store : Store)
    → IsSound store
    → d.pk < store.next_device
    → IsSound (save_for accepts location_data (some d, store)).1
save_for-IsSound accepts location_data d store sound below =
    store_location-IsSound _ (touch-IsSound store sound _ d.pk) accepts d.pk location_data below

-- However a location is saved, and whether or not it is, the keys of the tables stay apart and every
-- device points at the newest report of its locations.
pub save_location_to_db-IsSound :
    (accepts : Data → Bool) (location_data : Data) (store : Store)
    → IsSound store
    → IsSound (save_location_to_db accepts location_data store).1
unfolding save_location_to_db
save_location_to_db-IsSound accepts location_data store sound =
    saved (word_of (get location_data "device"))
  where
    found :
        (device_id : String) (rows : List Device)
        → All (λ (d : Device). d.pk < store.next_device) rows
        → IsSound (save_for accepts location_data (get_or_create device_id rows store)).1
    found device_id [] h =
        save_for-IsSound accepts location_data (fresh_device device_id store) _
          (add_device-IsSound store sound device_id) (omega arith)
    found device_id (d ∷ []) h = save_for-IsSound accepts location_data d store sound h.0
    found device_id (_ ∷ _ ∷ _) h = sound

    saved : (o : Option String) → IsSound (save_named accepts location_data store o).1
    saved none = sound
    saved (some device_id) =
        found device_id (devices_named device_id store.devices)
          (devices_named-All _ device_id store.devices sound.row_keys)

-- Tables that these facts do not speak of.
pub other_tables-IsSound :
    (store : Store) (waypoints : List WaypointRow) (transitions : List Transition)
    (mails : List (ℕ × ℕ))
    → IsSound store
    → IsSound (record store { waypoints = waypoints; transitions = transitions; mails = mails })
other_tables-IsSound store waypoints transitions mails sound = record {
  current = sound.current;
  location_keys = sound.location_keys;
  device_keys = sound.device_keys;
  row_keys = sound.row_keys;
  keyed = sound.keyed;
}

pub save_lwt_to_db-IsSound :
    (lwt_data : Data) (store : Store) → IsSound store → IsSound (save_lwt_to_db lwt_data store).1
unfolding save_lwt_to_db
save_lwt_to_db-IsSound lwt_data store sound = saved (word_of (get lwt_data "device"))
  where
    found :
        (device_id : String) (rows : List Device)
        → IsSound (save_lwt_for lwt_data device_id rows store).1
    found device_id [] = sound
    found device_id (_ ∷ _ ∷ _) = sound
    found device_id (d ∷ []) = record {
      current = sound.current;
      location_keys = sound.location_keys;
      device_keys = sound.device_keys;
      row_keys = row_keys-update_device _ d.pk _ (λ e. refl) store.devices sound.row_keys;
      keyed = update_device-IsKeyed d.pk _ (λ e. refl) store.devices sound.keyed;
    }

    saved : (o : Option String) → IsSound (lwt_named lwt_data store o).1
    saved none = sound
    saved (some device_id) = found device_id (devices_named device_id store.devices)
