-- ===== src/Transitions.antt =====
-- Transitions into and out of geofences, and the mails that they attempt: app/mqtt/plugin.py
-- (save_transition_to_db, _fire_transition_actions).
pub mod Fired
use my_tracks.Base.{
  ℕ, String, Option, none, some, List, [], ◌∷◌, ◌++◌, map, length, Bool, true, false, not, ◌&&◌,
  ◌||◌, ◌==◌, compared_texts, compared_numbers, if◌then◌else◌,
}
use my_tracks.Base.Int.{ℤ}
use my_tracks.Base.Table.{get}
use my_tracks.Json.{Json}
use my_tracks.Extraction.{Value, json, Data, is_text, truthy}
use my_tracks.Devices.{Device, WaypointRow, Transition, TransitionAction, Store, devices_named}
use my_tracks.Devices.Updates.{word_of, moment_of}
use my_tracks.Geofences.{waypoint_with}

abbrev same_waypoint : Option String → String → Bool
same_waypoint none rid = false
same_waypoint (some other) rid = other == rid

-- `action.waypoint is not None and action.waypoint != transition.waypoint`
abbrev pub other_waypoint : Option String → Option String → Bool
other_waypoint none of_transition = false
other_waypoint (some rid) of_transition = not (same_waypoint of_transition rid)

-- `action.event != ANY and action.event != transition.event`
abbrev pub other_event : String → Json → Bool
other_event wanted event = not (wanted == "any") && not (is_text event wanted)

-- The rules of the owner that are active and pass the two tests. The list is of those for which
-- send_transition_email is called; a call that fails is logged.
unfoldable pub fire : ℕ → Transition → List TransitionAction → List ℕ
fire owner transition [] = []
fire owner transition (action ∷ actions) =
    let rest = fire owner transition actions in
    if action.user == owner && action.is_active
    then (if other_waypoint action.waypoint transition.waypoint
        then rest
        else if other_event action.event transition.event
        then rest
        else action.pk ∷ rest)
    else rest

unfoldable pub fire_transition_actions : Option ℕ → Transition → List TransitionAction → List ℕ
unfolding fire
fire_transition_actions none transition actions = []
fire_transition_actions (some owner) transition actions = fire owner transition actions

abbrev value_at : Option Value → Json
value_at (some (json v)) = v
value_at _ = Json.null

-- data.get("region_id", "")
abbrev region_at : Option Value → Json
region_at (some (json v)) = v
region_at _ = Json.text ""

-- data.get("description") or ""
abbrev described : Json → Json
described v = if truthy v then v else Json.text ""

abbrev rid_of_row : Option WaypointRow → Option String
rid_of_row none = none
rid_of_row (some w) = some w.rid

-- What the broadcast tells of a transition that was saved: its number in the table.
pub record SavedTransition : Type 0 where
  pub id : ℕ

-- `as_text v` is str(v), by which a region id is looked up; `accepts` tells whether the database takes a
-- row.
module _ (as_text : Json → String) (accepts : Transition → Bool) where
  abbrev pub transition_row : Data → Device → ℤ → Store → Transition
  transition_row transition_data device timestamp store =
      let region_id = region_at (get transition_data "region_id") in
      record {
        device = device.pk;
        waypoint =
            if truthy region_id
            then rid_of_row (waypoint_with (as_text region_id) store.waypoints)
            else none;
        event = value_at (get transition_data "event");
        region_id = region_id;
        description = described (value_at (get transition_data "description"));
        timestamp = timestamp;
        latitude = get transition_data "latitude";
        longitude = get transition_data "longitude";
        accuracy = get transition_data "accuracy";
      }

  abbrev pub insert_transition : Device → Transition → Store → Option SavedTransition × Store
  insert_transition device row store = (
    some (record { id = length store.transitions }),
    record store {
      transitions = store.transitions ++ row ∷ [];
      mails =
          store.mails
          ++ map (λ action. (length store.transitions, action))
              (fire_transition_actions device.owner row store.actions);
    },
  )

  abbrev pub save_at : Data → Device → Option ℤ → Store → Option SavedTransition × Store
  save_at transition_data device none store = (none, store)
  save_at transition_data device (some timestamp) store =
      let row = transition_row transition_data device timestamp store in
      if accepts row then insert_transition device row store else (none, store)

  abbrev pub save_transition_for : Data → List Device → Store → Option SavedTransition × Store
  save_transition_for transition_data [] store = (none, store)
  save_transition_for transition_data (device ∷ []) store =
      save_at transition_data device (moment_of (get transition_data "timestamp")) store
  save_transition_for transition_data (_ ∷ _ ∷ _) store = (none, store)

  abbrev pub transition_named : Data → Option String → Store → Option SavedTransition × Store
  transition_named transition_data none store = (none, store)
  transition_named transition_data (some device_id) store =
      save_transition_for transition_data (devices_named device_id store.devices) store

  unfoldable pub save_transition_to_db : Data → Store → Option SavedTransition × Store
  unfolding truthy waypoint_with fire_transition_actions devices_named
  save_transition_to_db transition_data store =
      transition_named transition_data (word_of (get transition_data "device")) store
