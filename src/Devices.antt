-- ===== src/Devices.antt =====
-- The tables that the MQTT plugin of app/mqtt/plugin.py reads and writes (app/models.py): users, devices,
-- locations, stored last wills and geofences. Rows that a table does not order stand as they were added.
pub mod Updates
pub mod Keys
use my_tracks.Base.{
  ℕ, ◌+◌, ◌*◌, ◌-◌, String, Option, none, some, List, [], ◌∷◌, Bool, true, false, not, ◌&&◌, ◌==◌,
  compared_numbers, compared_texts, if◌then◌else◌, map,
}
use my_tracks.Base.Int.{ℤ, pos, negsuc}
use my_tracks.Json.{Json}
use my_tracks.Numbers.{seconds_before}
use my_tracks.Extraction.{Value, Data}
use my_tracks.Latest

pub record Account : Type 0 where
  pub pk : ℕ
  pub username : String

-- The pointer `latest_location` of a device stands with the tables of Latest.
pub record Device : Type 0 where
  pub pk : ℕ
  pub device_id : String
  pub name : String
  pub mqtt_user : String
  pub owner : Option ℕ
  pub is_online : Bool
  pub last_seen : ℕ
  pub last_location_at : Option ℕ

-- A stored last will.
pub record OwnTracksMessage : Type 0 where
  pub device : ℕ
  pub event : Option Value
  pub connected_at : Option Value
  pub disconnected_at : Option Value

pub record WaypointRow : Type 0 where
  pub user : ℕ
  pub label : Json
  pub latitude : Json
  pub longitude : Json
  pub radius : ℤ
  pub rid : String

-- `waypoint` is the rid of the geofence, or none.
pub record Transition : Type 0 where
  pub device : ℕ
  pub waypoint : Option String
  pub event : Json
  pub region_id : Json
  pub description : Json
  pub timestamp : ℤ
  pub latitude : Option Value
  pub longitude : Option Value
  pub accuracy : Option Value

-- A rule; `waypoint` is none for any geofence, and `event` is enter, leave or any.
pub record TransitionAction : Type 0 where
  pub pk : ℕ
  pub user : ℕ
  pub waypoint : Option String
  pub event : String
  pub is_active : Bool

-- `shares` are the rows of DeviceShare, a device and the user it is shared with. `mails` are the rules for
-- which a mail was attempted, each after the number of its transition. `columns` holds the other columns of a location, by its id. The two numbers are the next keys; the
-- clock gives an instant for each reading.
pub record Store : Type 0 where
  pub users : List Account
  pub devices : List Device
  pub latest : Latest.Database
  pub columns : List (ℕ × Data)
  pub messages : List OwnTracksMessage
  pub waypoints : List WaypointRow
  pub transitions : List Transition
  pub actions : List TransitionAction
  pub mails : List (ℕ × ℕ)
  pub shares : List (ℕ × ℕ)
  pub next_device : ℕ
  pub next_location : ℕ
  pub clock : ℕ → ℕ
  pub readings : ℕ

-- timezone.now()
abbrev pub now : Store → ℕ
now store = store.clock store.readings

-- User.objects.filter(username=username).first(); user names are unique
unfoldable pub account_named : List Account → String → Option Account
account_named [] username = none
account_named (a ∷ users) username =
    let found = account_named users username in if a.username == username then some a else found

-- Device.objects.filter(device_id=device_id)
unfoldable pub devices_named : String → List Device → List Device
devices_named device_id [] = []
devices_named device_id (d ∷ devices) =
    let rest = devices_named device_id devices in
    if d.device_id == device_id then d ∷ rest else rest

-- Device.objects.filter(pk=pk).update(...)
unfoldable pub update_device : ℕ → (Device → Device) → List Device → List Device
update_device pk change [] = []
update_device pk change (d ∷ devices) =
    (if d.pk == pk then change d else d) ∷ update_device pk change devices

unfoldable pub get_other_devices : String → List Device → List (String × String)
get_other_devices requesting_user [] = []
get_other_devices requesting_user (d ∷ devices) =
    let rest = get_other_devices requesting_user devices in
    if not (d.mqtt_user == requesting_user) && not (d.mqtt_user == "")
    then (d.mqtt_user, d.device_id) ∷ rest
    else rest

-- An instant in microseconds after 0001-01-01.
abbrev pub micros : ℤ → ℕ
micros (pos n) = (n + seconds_before) * 1000000
micros (negsuc n) = (seconds_before - 1 - n) * 1000000
