-- ===== src/Saving.antt =====
-- Locations and last wills that the broker receives, saved: app/mqtt/plugin.py (save_location_to_db,
-- save_lwt_to_db).
pub mod Sound
pub mod Owners
use my_tracks.Base.{
  ℕ, ◌+◌, String, Option, none, some, List, [], ◌∷◌, ◌++◌, Bool, true, false, not, ◌&&◌, ◌==◌,
  compared_texts, if◌then◌else◌,
}
use my_tracks.Base.Maybe.{◌>>=◌}
use my_tracks.Base.Int.{ℤ}
use my_tracks.Base.Table.{get, put}
use my_tracks.Extraction.{Value, absent, moment, word, Data}
use my_tracks.Latest
use my_tracks.Devices.Updates.{word_of, moment_of, Updates, updates_for, apply_updates}
use my_tracks.Devices.{
  Account, Device, OwnTracksMessage, Store, now, account_named, devices_named, update_device,
  micros,
}

-- A new device as the table has it; `last_seen` is the time of the insertion.
abbrev pub fresh_device : String → Store → Device
fresh_device device_id store = record {
  pk = store.next_device;
  device_id = device_id;
  name = device_id;
  mqtt_user = "";
  owner = none;
  is_online = false;
  last_seen = now store;
  last_location_at = none;
}

-- The insertion of a new device, with its row among the pointers.
abbrev pub add_device : String → Store → Store
add_device device_id store = record store {
  devices = store.devices ++ fresh_device device_id store ∷ [];
  latest = record store.latest {
    devices = record { pk = store.next_device; latest_location = none } ∷ store.latest.devices;
  };
  next_device = store.next_device + 1;
  readings = store.readings + 1;
}

-- get_or_create: more than one row is MultipleObjectsReturned
abbrev pub get_or_create : String → List Device → Store → Option Device × Store
get_or_create device_id [] store = (some (fresh_device device_id store), add_device device_id store)
get_or_create device_id (d ∷ []) store = (some d, store)
get_or_create device_id (_ ∷ _ ∷ _) store = (none, store)

abbrev created_micros : Option Value → Option ℕ
created_micros (some (moment t)) = some (micros t)
created_micros _ = none

abbrev rename : Option Value → String → Data → Data
rename none name columns = columns
rename (some v) name columns = put columns name v

-- data.get(key, default)
abbrev value_or_default : Option Value → Value → Value
value_or_default none default = default
value_or_default (some v) default = v

-- LOCATION_OPTIONAL_MODEL_FIELDS
abbrev pub location_optional_model_fields : List String
location_optional_model_fields =
    "owntracks_message_id" ∷ "owntracks_created_at" ∷ "trigger" ∷ "battery_status" ∷ "fix_source"
    ∷ "vertical_accuracy" ∷ "course" ∷ "monitoring_mode" ∷ "wifi_bssid" ∷ "wifi_ssid" ∷ "in_regions"
    ∷ []

-- {key: location_data[key] for key in names if key in location_data}
unfoldable pub optional_columns : List String → Data → Data → Data
optional_columns [] location_data columns = columns
optional_columns (name ∷ names) location_data columns =
    optional_columns names location_data (rename (get location_data name) name columns)

unfoldable pub location_columns : Data → Data
unfolding optional_columns
location_columns location_data = optional_columns location_optional_model_fields location_data (
    ("latitude", value_or_default (get location_data "latitude") absent)
    ∷ ("longitude", value_or_default (get location_data "longitude") absent)
    ∷ ("tracker_id", value_or_default (get location_data "tracker_id") (word ""))
    ∷ ("accuracy", value_or_default (get location_data "accuracy") absent)
    ∷ ("altitude", value_or_default (get location_data "altitude") absent)
    ∷ ("velocity", value_or_default (get location_data "velocity") absent)
    ∷ ("battery_level", value_or_default (get location_data "battery") absent)
    ∷ ("connection_type", value_or_default (get location_data "connection") (word ""))
    ∷ ("ip_address", value_or_default (get location_data "client_ip") absent)
    ∷ ("received_via", word "mqtt")
    ∷ [])

-- What the serializer tells of a new location.
pub record Saved : Type 0 where
  pub id : ℕ
  pub device : ℕ

abbrev pub location_row : ℕ → ℤ → Data → Store → Latest.Location
location_row pk timestamp location_data store = record {
  id = store.next_location;
  device_id = pk;
  timestamp = micros timestamp;
  received_at = now store;
  owntracks_created_at = created_micros (get location_data "owntracks_created_at");
}

abbrev pub insert_location : ℕ → ℤ → Data → Store → Store
insert_location pk timestamp location_data store = record store {
  latest = Latest.create_location (location_row pk timestamp location_data store) store.latest;
  columns = (store.next_location, location_columns location_data) ∷ store.columns;
  next_location = store.next_location + 1;
  readings = store.readings + 1;
}

-- The required fields: without one there is a KeyError. `accepts` tells whether the database takes a row.
abbrev pub store_with :
    (Data → Bool) → ℕ → Data → Store → Option Value → Option Value → Option ℤ → Option Saved × Store
store_with accepts pk location_data store none longitude timestamp = (none, store)
store_with accepts pk location_data store (some _) none timestamp = (none, store)
store_with accepts pk location_data store (some _) (some _) none = (none, store)
store_with accepts pk location_data store (some _) (some _) (some timestamp) =
    if accepts (location_columns location_data)
    then (
      some (record { id = store.next_location; device = pk }),
      insert_location pk timestamp location_data store,
    )
    else (none, store)

-- Location.objects.create and the serializer
unfoldable pub store_location : (Data → Bool) → ℕ → Data → Store → Option Saved × Store
unfolding location_columns
store_location accepts pk location_data store =
    store_with accepts pk location_data store (get location_data "latitude")
      (get location_data "longitude") (moment_of (get location_data "timestamp"))

abbrev pub touch : Updates → ℕ → Store → Store
touch u pk store = record store {
  devices = update_device pk (apply_updates u) store.devices;
  readings = store.readings + 1;
}

-- From the device on: the update of its row and the new location.
abbrev pub save_for : (Data → Bool) → Data → Option Device × Store → Option Saved × Store
save_for accepts location_data (none, store) = (none, store)
save_for accepts location_data (some device, store) =
    store_location accepts device.pk location_data
      (touch (updates_for location_data store.users (now store) device) device.pk store)

abbrev pub save_named : (Data → Bool) → Data → Store → Option String → Option Saved × Store
save_named accepts location_data store none = (none, store)
save_named accepts location_data store (some device_id) =
    save_for accepts location_data
      (get_or_create device_id (devices_named device_id store.devices) store)

-- Every exception is logged and gives None; what has been written stays.
unfoldable pub save_location_to_db : (Data → Bool) → Data → Store → Option Saved × Store
unfolding devices_named updates_for
save_location_to_db accepts location_data store =
    save_named accepts location_data store (word_of (get location_data "device"))

-- The device's status, for the broadcast.
pub record Status : Type 0 where
  pub device_id : String
  pub is_online : Bool

abbrev offline : ℕ → Device → Device
offline t d = record d { is_online = false; last_seen = t }

-- `get`: no row is DoesNotExist, more than one is MultipleObjectsReturned
abbrev pub save_lwt_for : Data → String → List Device → Store → Option Status × Store
save_lwt_for lwt_data device_id (d ∷ []) store = (
  some (record { device_id = device_id; is_online = false }),
  record store {
    devices = update_device d.pk (offline (now store)) store.devices;
    messages =
        store.messages
        ++ record {
          device = d.pk;
          event = get lwt_data "event";
          connected_at = get lwt_data "connected_at";
          disconnected_at = get lwt_data "disconnected_at";
        }
          ∷ [];
    readings = store.readings + 1;
  },
)
save_lwt_for lwt_data device_id [] store = (none, store)
save_lwt_for lwt_data device_id (_ ∷ _ ∷ _) store = (none, store)

abbrev pub lwt_named : Data → Store → Option String → Option Status × Store
lwt_named lwt_data store none = (none, store)
lwt_named lwt_data store (some device_id) =
    save_lwt_for lwt_data device_id (devices_named device_id store.devices) store

unfoldable pub save_lwt_to_db : Data → Store → Option Status × Store
unfolding devices_named
save_lwt_to_db lwt_data store = lwt_named lwt_data store (word_of (get lwt_data "device"))
