-- ===== src/Plugin.antt =====
-- OwnTracksPlugin of app/mqtt/plugin.py: the identities of TLS clients, the callbacks of the message handler,
-- and the hooks that the broker calls, one after the other.
pub mod Owned
pub mod Runs
use Prim.Native.String.{◌++◌ as text_append}
use text.Mathlib.Text.{starts_with}
use my_tracks.Base.{
  ℕ, zero, suc, String, Option, none, some, List, [], ◌∷◌, ◌++◌, Bool, true, false, not, ltb, ◌==◌,
  compared_numbers, compared_texts, if◌then◌else◌,
}
use my_tracks.Base.Int.{ℤ}
use my_tracks.Base.Table.{Table, get, put, pop}
use my_tracks.Json.{Json}
use my_tracks.Numbers.{value_error, Try, ok, raised, ◌>>=◌}
use my_tracks.Extraction.{Data}
use my_tracks.Handlers.{
  Loaded, Handler, init, on_location, on_lwt, on_transition, on_waypoint, on_cmd, Event, called,
  logged, Origin, handle_message,
}
use my_tracks.Commands.{Client, Wire}
use my_tracks.Devices.{Device, Transition, WaypointRow, Store, devices_named}
use my_tracks.Saving.{Saved, Status, save_location_to_db, save_lwt_to_db}
use my_tracks.Transitions.{SavedTransition, save_transition_to_db}
use my_tracks.Geofences.{save_waypoints_to_db}
use my_tracks.Relay.{handle_cmd_from_device}
use my_tracks.Broadcasts.{
  staff, location_update, device_status, waypoint_event, transition_event, Body, Sending,
  broadcast_to_groups, broadcast_device_event,
}

pub record ClientTlsInfo : Type 0 where
  pub cn : String
  pub fingerprint : String

-- What the TLS object of a connection tells: no certificate (or a TypeError or ValueError), one that does
-- not parse, or its common names and its fingerprint.
pub data Certificate : Type 0 where
  unavailable unreadable : Certificate
  certificate : List String → String → Certificate

unfoldable pub extract_tls_info : Certificate → Try (Option ClientTlsInfo)
extract_tls_info unavailable = ok none
extract_tls_info unreadable = raised value_error
extract_tls_info (certificate [] fingerprint) =
    ok (some (record { cn = "unknown"; fingerprint = fingerprint }))
extract_tls_info (certificate (cn ∷ _) fingerprint) =
    ok (some (record { cn = cn; fingerprint = fingerprint }))

-- What the broker library knows of a client: the TLS object of its writer, and its session.
pub record Session : Type 0 where
  pub ssl_object : Option Certificate
  pub remote_address : Option String

pub record Peer : Type 0 where
  pub writer : Option Certificate
  pub session : Option Session

abbrev session_ssl : Option Session → Option Certificate
session_ssl none = none
session_ssl (some session) = session.ssl_object

abbrev writer_or : Option Certificate → Option Certificate → Option Certificate
writer_or none other = other
writer_or (some c) other = some c

unfoldable pub live_ssl_for_client : Peer → Option Certificate
live_ssl_for_client peer = writer_or peer.writer (session_ssl peer.session)

abbrev pub Cache : Type 0
Cache = Table (Option ClientTlsInfo)

abbrev extracted : Option Certificate → Try (Option ClientTlsInfo)
extracted none = ok none
extracted (some c) = extract_tls_info c

abbrev cached_or : Option (Option ClientTlsInfo) → Option Certificate → Try (Option ClientTlsInfo)
cached_or none live = extracted live
cached_or (some none) live = extracted live
cached_or (some (some info)) live = ok (some info)

unfoldable pub live_tls_info_for_client : Cache → String → Peer → Try (Option ClientTlsInfo)
unfolding extract_tls_info live_ssl_for_client
live_tls_info_for_client cache client_id peer =
    cached_or (get cache client_id) (live_ssl_for_client peer)

abbrev tls_or_cached : Option Certificate → Option (Option ClientTlsInfo) → String
tls_or_cached (some _) cached = "mqtt-tls"
tls_or_cached none (some (some _)) = "mqtt-tls"
tls_or_cached none (some none) = "mqtt"
tls_or_cached none none = "mqtt"

unfoldable pub transport : Cache → String → Peer → String
unfolding live_ssl_for_client
transport cache client_id peer = tls_or_cached (live_ssl_for_client peer) (get cache client_id)

-- f" (CN={cn} [{fingerprint}])", or nothing
abbrev suffix : Option ClientTlsInfo → String
suffix none = ""
suffix (some info) =
    text_append " (CN=" (text_append info.cn (text_append " [" (text_append info.fingerprint "])")))

unfoldable pub identity : Cache → String → Peer → Try String
unfolding live_tls_info_for_client
identity cache client_id peer =
    live_tls_info_for_client cache client_id peer >>= λ info. ok (suffix info)

abbrev connected_with : Cache → String → Option Certificate → Cache
connected_with cache client_id none = put cache client_id none
connected_with cache client_id (some c) = elim (extract_tls_info c) [
  | ok info ↦ put cache client_id info
  | raised e ↦ cache
]

unfoldable pub on_broker_client_connected : Cache → String → Peer → Cache
unfolding extract_tls_info
on_broker_client_connected cache client_id peer = connected_with cache client_id peer.writer

-- The identity is read for the log first.
unfoldable pub on_broker_client_disconnected : Cache → String → Peer → Cache
unfolding identity
on_broker_client_disconnected cache client_id peer = elim (identity cache client_id peer) [
  | ok _ ↦ pop cache client_id
  | raised e ↦ cache
]

-- `relayed` holds the locations that were handed to the relay to domesti-bot.
pub record World : Type 0 where
  pub store : Store
  pub wire : Wire
  pub client_tls : Cache
  pub sent : List Sending
  pub relayed : List ℕ

-- What the plugin uses that is not its own: what the database takes, the names of waypoints and str(),
-- json.loads, the broker that publishes, and whether there is a channel layer.
pub record Host : Type 0 where
  pub takes_location : Data → Bool
  pub takes_waypoint : WaypointRow → Bool
  pub takes_transition : Transition → Bool
  pub rid_of : ℕ → Json → Json → Json → ℤ → String
  pub as_text : Json → String
  pub loads : List ℕ → Loaded
  pub broker : Option (ℕ → Bool)
  pub has_channel : Bool

unfoldable pub setup_callbacks : Handler
unfolding init on_location on_lwt on_transition on_waypoint on_cmd
setup_callbacks = on_cmd 4 (on_waypoint 3 (on_transition 2 (on_lwt 1 (on_location 0 init))))

-- Device.objects.get(pk=pk)
unfoldable pub device_at : ℕ → List Device → Option Device
device_at pk [] = none
device_at pk (d ∷ devices) =
    let found = device_at pk devices in if d.pk == pk then some d else found

-- Device.objects.get(device_id=device_id)
abbrev only : List Device → Option Device
only [] = none
only (d ∷ []) = some d
only (_ ∷ _ ∷ _) = none

abbrev owned_relay : Option Device → ℕ → List ℕ
owned_relay none id = []
owned_relay (some d) id = elim d.owner [ none ↦ [] | some _ ↦ id ∷ [] ]

-- A channel layer is there, or nothing is sent.
abbrev over_channel : Bool → List Sending → List Sending
over_channel has_channel messages = if has_channel then messages else []

abbrev told : Option Device → List (ℕ × ℕ) → Body → List Sending
told none shares body = []
told (some d) shares body = broadcast_device_event d shares body

abbrev pub broadcast_location : Bool → Saved → Store → List Sending
broadcast_location has_channel saved store =
    over_channel has_channel
      (told (device_at saved.device store.devices) store.shares (location_update saved))

-- if not device_id: nothing
abbrev pub broadcast_device_status : Bool → Status → Store → List Sending
broadcast_device_status has_channel status store = over_channel has_channel (
    if status.device_id == ""
    then []
    else told (only (devices_named status.device_id store.devices)) store.shares
        (device_status status))

abbrev pub broadcast_waypoints : Bool → ℕ → List Sending
broadcast_waypoints has_channel saved =
    over_channel has_channel (broadcast_to_groups (staff ∷ []) (waypoint_event saved))

abbrev pub broadcast_transition : Bool → SavedTransition → List Sending
broadcast_transition has_channel saved =
    over_channel has_channel (broadcast_to_groups (staff ∷ []) (transition_event saved))

module _ (host : Host) where
  abbrev pub after_location : World → Option Saved × Store → World
  after_location w (none, store) = record w { store = store }
  after_location w (some saved, store) = record w {
    store = store;
    relayed = w.relayed ++ owned_relay (device_at saved.device store.devices) saved.id;
    sent = w.sent ++ broadcast_location host.has_channel saved store;
  }

  abbrev pub after_lwt : World → Option Status × Store → World
  after_lwt w (none, store) = record w { store = store }
  after_lwt w (some status, store) = record w {
    store = store;
    sent = w.sent ++ broadcast_device_status host.has_channel status store;
  }

  abbrev pub after_transition : World → Option SavedTransition × Store → World
  after_transition w (none, store) = record w { store = store }
  after_transition w (some saved, store) = record w {
    store = store;
    sent = w.sent ++ broadcast_transition host.has_channel saved;
  }

  abbrev pub after_waypoints : World → ℕ × Store → World
  after_waypoints w (saved, store) = record w {
    store = store;
    sent = w.sent ++ (if ltb 0 saved then broadcast_waypoints host.has_channel saved else []);
  }

  -- The callbacks by their numbers.
  unfoldable pub callback : ℕ → Data → World → World
  unfolding broadcast_device_event broadcast_to_groups device_at
  callback zero d w = after_location w (save_location_to_db host.takes_location d w.store)
  callback (suc zero) d w = after_lwt w (save_lwt_to_db d w.store)
  callback (suc (suc zero)) d w =
      after_transition w (save_transition_to_db host.as_text host.takes_transition d w.store)
  callback (suc (suc (suc zero))) d w =
      after_waypoints w (save_waypoints_to_db host.rid_of host.takes_waypoint d w.store)
  callback (suc (suc (suc (suc _)))) d w = record w {
    wire = handle_cmd_from_device host.broker d w.store.devices w.wire;
  }

  unfoldable pub run_calls : List Event → World → World
  unfolding callback
  run_calls [] w = w
  run_calls (called c d ∷ events) w = run_calls events (callback c d w)
  run_calls (logged c ∷ events) w = run_calls events w

  abbrev address : Option Session → Option String
  address none = none
  address (some session) = session.remote_address

  abbrev cn_of : Option ClientTlsInfo → String
  cn_of none = ""
  cn_of (some info) = info.cn

  abbrev pub identified :
      (ℕ → Data → Bool)
      → String
      → Peer
      → String
      → Option (List ℕ)
      → World
      → Try (Option ClientTlsInfo)
      → World
  identified raises client_id peer topic payload w (raised e) = w
  identified raises client_id peer topic payload w (ok info) =
      run_calls
        (handle_message raises host.loads setup_callbacks topic payload (record {
          client_ip = address peer.session;
          transport = transport w.client_tls client_id peer;
          tls_identity = suffix info;
          tls_cn = cn_of info;
        })).0
        w

  -- The hook for each published message. `raises` says which calls of callbacks raise an exception.
  unfoldable pub message_received :
      (ℕ → Data → Bool) → String → Peer → String → Option (List ℕ) → World → World
  unfolding transport live_tls_info_for_client setup_callbacks run_calls
  message_received raises client_id peer topic payload w =
      if not (starts_with topic "owntracks/")
      then w
      else identified raises client_id peer topic payload w
          (live_tls_info_for_client w.client_tls client_id peer)

-- What the broker reports.
pub data Report : Type 0 where
  connected disconnected : String → Peer → Report
  received : (ℕ → Data → Bool) → String → Peer → String → Option (List ℕ) → Report

unfoldable pub step : Host → Report → World → World
step host (connected client_id peer) w = record w {
  client_tls = on_broker_client_connected w.client_tls client_id peer;
}
step host (disconnected client_id peer) w = record w {
  client_tls = on_broker_client_disconnected w.client_tls client_id peer;
}
step host (received raises client_id peer topic payload) w =
    message_received host raises client_id peer topic payload w

unfoldable pub run : Host → List Report → World → World
run host [] w = w
run host (r ∷ reports) w = run host reports (step host r w)
