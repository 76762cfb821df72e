-- ===== src/Tests/Plugin.antt =====
-- What the MQTT plugin saves and passes on, at concrete inputs.
use my_tracks.Base.{
  ℕ, String, none, some, List, [], ◌∷◌, ◌++◌, length, Bool, true, false, compared_numbers,
  compared_texts, ◌≡◌, ◌≢◌, refl, arith,
}
use my_tracks.Base.Int.{ℤ, pos}
use my_tracks.Base.Table.{get}
use my_tracks.Json.{Json, field, end}
use my_tracks.Handlers.{loaded}
use my_tracks.Transitions.{fire}
use my_tracks.Transitions.Fired.{Fired, fire-Fired}
use my_tracks.Plugin.{Host, Peer, World, Report, connected, disconnected, received, run}
use my_tracks.Plugin.Owned.{IsOwned}
use my_tracks.Plugin.Runs.{run-IsSound}
use my_tracks.Latest.{latest_location_queryset, of_device, order_by_report}
use my_tracks.Extraction.{Data, json, word, number, moment, waypoint_list}
use my_tracks.Devices.{Device, Store, WaypointRow, Transition, TransitionAction}
use my_tracks.Commands.{Wire}
use my_tracks.Saving.{save_location_to_db}
use my_tracks.Saving.Sound.{IsSound}
use my_tracks.Saving.Owners.{Received, save_location_to_db-Received}
use my_tracks.Relay.{handle_cmd_from_device}
use my_tracks.Relay.Rules.{Relay, handle_cmd_from_device-Relay}
use my_tracks.Geofences.{save_waypoints_to_db}
use my_tracks.Geofences.Waypoints.{save_waypoints_to_db-Once}

abbrev phone : Device
phone = record {
  pk = 1;
  device_id = "phone";
  name = "phone";
  mqtt_user = "alice";
  owner = some 7;
  is_online = false;
  last_seen = 0;
  last_location_at = none;
}

abbrev store : Store
store = record {
  users = record { pk = 7; username = "alice" } ∷ [];
  devices = phone ∷ [];
  latest = record { locations = []; devices = record { pk = 1; latest_location = none } ∷ [] };
  columns = [];
  messages = [];
  waypoints = [];
  transitions = [];
  actions = [];
  mails = [];
  shares = [];
  next_device = 2;
  next_location = 0;
  clock = λ n. n;
  readings = 0;
}

store-IsSound : IsSound store
unfolding latest_location_queryset of_device order_by_report
store-IsSound = record {
  current = record { distinct = tt; pointers = (refl, tt) };
  location_keys = tt;
  device_keys = tt;
  row_keys = (omega arith, tt);
  keyed = (tt, tt);
}

-- A location of bob's phone.
abbrev from_bob : Data
from_bob =
    ("device", word "phone")
    ∷ ("mqtt_user", word "bob")
    ∷ ("latitude", number (Json.int (pos 1)))
    ∷ ("longitude", number (Json.int (pos 2)))
    ∷ ("timestamp", moment (pos 1700000000))
    ∷ []

abbrev accepts : Data → Bool
accepts columns = true

save_location_to_db-Received_example :
    Received from_bob "phone" store (save_location_to_db accepts from_bob store)
unfolding get
save_location_to_db-Received_example =
    save_location_to_db-Received accepts from_bob "phone" store store-IsSound refl

abbrev broker : ℕ → Bool
broker = λ call. true

abbrev wire : Wire
wire = record { published = []; calls = 0 }

-- Bob asks on his own topic.
abbrev request : Data
request =
    ("action", json (Json.text "reportLocation"))
    ∷ ("user", word "bob")
    ∷ ("mqtt_user", word "bob")
    ∷ ("tls_cn", word "")
    ∷ []

handle_cmd_from_device-Relay_example :
    Relay
      (some broker)
      request
      store.devices
      wire
      (handle_cmd_from_device (some broker) request store.devices wire)
handle_cmd_from_device-Relay_example =
    handle_cmd_from_device-Relay (some broker) request store.devices wire

abbrev listed : Data
listed =
    ("device", word "phone")
    ∷ (
      "waypoints",
      waypoint_list (
          record {
            desc = Json.text "home";
            lat = Json.int (pos 1);
            lon = Json.int (pos 2);
            rad = Json.int (pos 100);
          }
          ∷ []),
    )
    ∷ []

abbrev rid_of : ℕ → Json → Json → Json → ℤ → String
rid_of owner desc lat lon rad = "rid"

abbrev takes : WaypointRow → Bool
takes row = true

save_waypoints_to_db-Once_example :
    (added : List WaypointRow) × ((save_waypoints_to_db rid_of takes listed store).1
      ≡ record store { waypoints = store.waypoints ++ added })
    × ((save_waypoints_to_db rid_of takes listed store).0 ≢ 0
        → (save_waypoints_to_db rid_of takes listed store).0 ≡ length added)
    × (save_waypoints_to_db rid_of takes listed (save_waypoints_to_db rid_of takes listed store).1
        ≡ (0, (save_waypoints_to_db rid_of takes listed store).1))
save_waypoints_to_db-Once_example = save_waypoints_to_db-Once rid_of takes listed store

abbrev by_alice : TransitionAction
by_alice = record { pk = 5; user = 7; waypoint = none; event = "any"; is_active = true }

abbrev entered : Transition
entered = record {
  device = 1;
  waypoint = none;
  event = Json.text "enter";
  region_id = Json.text "";
  description = Json.text "";
  timestamp = pos 0;
  latitude = none;
  longitude = none;
  accuracy = none;
}

fire-Fired_example : Fired 7 entered (by_alice ∷ []) (fire 7 entered (by_alice ∷ []))
fire-Fired_example = fire-Fired 7 entered (by_alice ∷ [])

abbrev host : Host
host = record {
  takes_location = accepts;
  takes_waypoint = takes;
  takes_transition = λ row. true;
  rid_of = rid_of;
  as_text = λ v. "";
  loads = λ payload. loaded (
      Json.object (
        field "_type" (Json.text "location") (
          field "lat" (Json.int (pos 1))
            (field "lon" (Json.int (pos 2)) (field "tst" (Json.int (pos 1700000000)) end)))));
  broker = some broker;
  has_channel = true;
}

abbrev peer : Peer
peer = record { writer = none; session = none }

abbrev world : World
world = record { store = store; wire = wire; client_tls = []; sent = []; relayed = [] }

-- Bob's phone connects, and sends a location.
abbrev reports : List Report
reports =
    connected "bob" peer
    ∷ received (λ c d. false) "bob" peer "owntracks/bob/phone" (some [])
    ∷ disconnected "bob" peer
    ∷ []

run-IsSound_example :
    IsSound (run host reports world).store
    × ((pk owner : ℕ)
        → IsOwned pk owner store.devices
        → IsOwned pk owner (run host reports world).store.devices)
run-IsSound_example = run-IsSound host reports world store-IsSound
