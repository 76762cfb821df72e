-- ===== src/Geofences.antt =====
-- Waypoints that a device publishes, and its transitions: app/mqtt/plugin.py (save_waypoints_to_db,
-- save_transition_to_db, _fire_transition_actions). An exception is logged and ends the function; what
-- has been written by then stays.
pub mod Waypoints
use my_tracks.Base.{
  ℕ, ◌+◌, String, Option, none, some, List, [], ◌∷◌, ◌++◌, Bool, true, false, not, ◌&&◌, ◌||◌, ◌==◌,
  compared_texts, compared_numbers, if◌then◌else◌,
}
use my_tracks.Base.Int.{ℤ}
use my_tracks.Base.Table.{get}
use my_tracks.Json.{Json}
use my_tracks.Numbers.{Try, ok, raised, ◌>>=◌, int, float}
use my_tracks.Extraction.{
  Value, json, moment, waypoint_list, Waypoint, Data, is_null, is_text, truthy,
}
use my_tracks.Devices.{Device, WaypointRow, Store, devices_named}
use my_tracks.Devices.Updates.{word_of}

-- Waypoint.objects.filter(rid=rid).first(); `rid` is unique
unfoldable pub waypoint_with : String → List WaypointRow → Option WaypointRow
waypoint_with rid [] = none
waypoint_with rid (w ∷ rows) =
    let found = waypoint_with rid rows in if w.rid == rid then some w else found

abbrev pub waypoints_of : Option Value → List Waypoint
waypoints_of (some (waypoint_list wps)) = wps
waypoints_of _ = []

-- the list comprehension `valid_wps`
unfoldable pub valid_waypoints : List Waypoint → List Waypoint
valid_waypoints [] = []
valid_waypoints (wp ∷ wps) =
    let rest = valid_waypoints wps in if is_null wp.lat || is_null wp.lon then rest else wp ∷ rest

-- wp.get("desc") or ""
abbrev described : Json → Json
described desc = if truthy desc then desc else Json.text ""

-- `rid_of owner desc lat lon rad` is the uuid5 of the text of these, with six decimals of lat and lon;
-- `accepts` tells whether the database takes a row.
module _ (rid_of : ℕ → Json → Json → Json → ℤ → String) (accepts : WaypointRow → Bool) where
  abbrev pub row_of : ℕ → Waypoint → Json → Json → ℤ → WaypointRow
  row_of owner wp lat lon rad = record {
    user = owner;
    label = described wp.desc;
    latitude = wp.lat;
    longitude = wp.lon;
    radius = rad;
    rid = rid_of owner (described wp.desc) lat lon rad;
  }

  -- the conversions of a waypoint
  unfoldable pub waypoint_row : ℕ → Waypoint → Try WaypointRow
  unfolding truthy
  waypoint_row owner wp = do
    lat ← float wp.lat
    lon ← float wp.lon
    rad ← int wp.rad
    ok (row_of owner wp lat lon rad)

  -- How far the loop has come: its count, or an exception.
  abbrev pub Progress : Type 0
  Progress = Option ℕ × List WaypointRow

  -- get_or_create, and `count += 1` for a row that was created
  abbrev pub get_or_create_waypoint :
      Option WaypointRow → WaypointRow → ℕ → List WaypointRow → Progress
  get_or_create_waypoint (some found) row count rows = (some count, rows)
  get_or_create_waypoint none row count rows =
      if accepts row then (some (count + 1), rows ++ row ∷ []) else (none, rows)

  abbrev pub save_row : Try WaypointRow → ℕ → List WaypointRow → Progress
  save_row (raised e) count rows = (none, rows)
  save_row (ok row) count rows = get_or_create_waypoint (waypoint_with row.rid rows) row count rows

  abbrev pub go_on : Progress → (ℕ → List WaypointRow → Progress) → Progress
  go_on (none, rows) rest = (none, rows)
  go_on (some count, rows) rest = rest count rows

  unfoldable pub save_each : ℕ → List Waypoint → ℕ → List WaypointRow → Progress
  unfolding waypoint_row waypoint_with
  save_each owner [] count rows = (some count, rows)
  save_each owner (wp ∷ wps) count rows =
      go_on (save_row (waypoint_row owner wp) count rows) (save_each owner wps)

  abbrev pub counted : Option ℕ → ℕ
  counted none = 0
  counted (some count) = count

  abbrev pub save_owned : Option ℕ → List Waypoint → List WaypointRow → ℕ × List WaypointRow
  save_owned none wps rows = (0, rows)
  save_owned (some owner) wps rows =
      let done = save_each owner wps 0 rows in (counted done.0, done.1)

  abbrev pub save_of : List Device → List Waypoint → List WaypointRow → ℕ × List WaypointRow
  save_of [] wps rows = (0, rows)
  save_of (d ∷ []) wps rows = save_owned d.owner (valid_waypoints wps) rows
  save_of (_ ∷ _ ∷ _) wps rows = (0, rows)

  abbrev pub save_named : Option String → List Waypoint → Store → ℕ × List WaypointRow
  save_named none wps store = (0, store.waypoints)
  save_named (some device_id) wps store =
      save_of (devices_named device_id store.devices) wps store.waypoints

  unfoldable pub save_waypoints_to_db : Data → Store → ℕ × Store
  unfolding valid_waypoints save_each
  save_waypoints_to_db waypoint_data store =
      let saved =
        save_named (word_of (get waypoint_data "device"))
          (waypoints_of (get waypoint_data "waypoints")) store in
      (saved.0, record store { waypoints = saved.1 })
