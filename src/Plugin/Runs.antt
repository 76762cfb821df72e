-- ===== src/Plugin/Runs.antt =====
-- What holds after any sequence of connections, disconnections and messages: OwnTracksPlugin of
-- app/mqtt/plugin.py.
use my_tracks.Base.{
  ℕ, zero, suc, String, Option, none, some, List, [], ◌∷◌, Bool, not, compared_numbers, if-cases,
}
use my_tracks.Base.Int.{ℤ}
use my_tracks.Base.Table.{get}
use text.Mathlib.Text.{starts_with}
use my_tracks.Json.{Json}
use my_tracks.Transitions.{
  SavedTransition, transition_row, save_at, save_transition_for, transition_named,
  save_transition_to_db,
}
use my_tracks.Geofences.{save_waypoints_to_db}
use my_tracks.Numbers.{Try, ok, raised}
use my_tracks.Extraction.{Data}
use my_tracks.Handlers.{Event, called, logged}
use my_tracks.Devices.{Device, Transition, WaypointRow, Store, devices_named}
use my_tracks.Devices.Updates.{word_of, moment_of}
use my_tracks.Saving.{save_location_to_db, save_lwt_to_db, Saved, Status}
use my_tracks.Saving.Sound.{
  IsSound, save_location_to_db-IsSound, save_lwt_to_db-IsSound, other_tables-IsSound,
}
use my_tracks.Plugin.Owned.{IsOwned, save_location_to_db-IsOwned, save_lwt_to_db-IsOwned}
use my_tracks.Plugin.{
  World, Host, after_location, after_lwt, after_transition, callback, run_calls, identified, Peer,
  live_tls_info_for_client, ClientTlsInfo, message_received, Report, connected, disconnected,
  received, step, run,
}

-- The tables are sound, and each device that had an owner at the start has it.
module _ (start : List Device) where
  abbrev IsHeld : Store → Type 0
  IsHeld store =
      IsSound store × ((pk owner : ℕ) → IsOwned pk owner start → IsOwned pk owner store.devices)

  save_location_to_db-IsHeld :
      (accepts : Data → Bool) (location_data : Data) (store : Store)
      → IsHeld store
      → IsHeld (save_location_to_db accepts location_data store).1
  save_location_to_db-IsHeld accepts location_data store (sound, h) = (
    save_location_to_db-IsSound accepts location_data store sound,
    λ pk owner given.
        save_location_to_db-IsOwned pk owner accepts location_data store sound (h pk owner given),
  )

  save_lwt_to_db-IsHeld :
      (lwt_data : Data) (store : Store) → IsHeld store → IsHeld (save_lwt_to_db lwt_data store).1
  save_lwt_to_db-IsHeld lwt_data store (sound, h) = (
    save_lwt_to_db-IsSound lwt_data store sound,
    λ pk owner given. save_lwt_to_db-IsOwned pk owner lwt_data store (h pk owner given),
  )

  save_transition_to_db-IsHeld :
      (as_text : Json → String) (accepts : Transition → Bool) (transition_data : Data)
      (store : Store)
      → IsHeld store
      → IsHeld (save_transition_to_db as_text accepts transition_data store).1
  unfolding save_transition_to_db
  save_transition_to_db-IsHeld as_text accepts transition_data store (sound, h) =
      saved (word_of (get transition_data "device"))
    where
      at :
          (d : Device) (o : Option ℤ) → IsHeld (save_at as_text accepts transition_data d o store).1
      at d none = (sound, h)
      at d (some timestamp) =
          let row = transition_row as_text accepts transition_data d timestamp store in
          if-cases (λ (r : Option SavedTransition × Store). IsHeld r.1) (accepts row)
            (λ _. (other_tables-IsSound store store.waypoints _ _ sound, h)) (λ _. (sound, h))

      found :
          (rows : List Device)
          → IsHeld (save_transition_for as_text accepts transition_data rows store).1
      found [] = (sound, h)
      found (_ ∷ _ ∷ _) = (sound, h)
      found (d ∷ []) = at d (moment_of (get transition_data "timestamp"))

      saved :
          (o : Option String) → IsHeld (transition_named as_text accepts transition_data o store).1
      saved none = (sound, h)
      saved (some device_id) = found (devices_named device_id store.devices)

  save_waypoints_to_db-IsHeld :
      (rid_of : ℕ → Json → Json → Json → ℤ → String) (accepts : WaypointRow → Bool)
      (waypoint_data : Data) (store : Store)
      → IsHeld store
      → IsHeld (save_waypoints_to_db rid_of accepts waypoint_data store).1
  unfolding save_waypoints_to_db
  save_waypoints_to_db-IsHeld rid_of accepts waypoint_data store (sound, h) =
      (other_tables-IsSound store _ store.transitions store.mails sound, h)

  module _ (host : Host) where
    after_location-IsHeld :
        (w : World) (r : Option Saved × Store) → IsHeld r.1 → IsHeld (after_location host w r).store
    after_location-IsHeld w (none, store) h = h
    after_location-IsHeld w (some saved, store) h = h

    after_lwt-IsHeld :
        (w : World) (r : Option Status × Store) → IsHeld r.1 → IsHeld (after_lwt host w r).store
    after_lwt-IsHeld w (none, store) h = h
    after_lwt-IsHeld w (some status, store) h = h

    after_transition-IsHeld :
        (w : World) (r : Option SavedTransition × Store)
        → IsHeld r.1
        → IsHeld (after_transition host w r).store
    after_transition-IsHeld w (none, store) h = h
    after_transition-IsHeld w (some saved, store) h = h

    callback-IsHeld :
        (c : ℕ) (d : Data) (w : World) → IsHeld w.store → IsHeld (callback host c d w).store
    unfolding callback
    callback-IsHeld zero d w h =
        after_location-IsHeld w _ (save_location_to_db-IsHeld host.takes_location d w.store h)
    callback-IsHeld (suc zero) d w h = after_lwt-IsHeld w _ (save_lwt_to_db-IsHeld d w.store h)
    callback-IsHeld (suc (suc zero)) d w h =
        after_transition-IsHeld w _
          (save_transition_to_db-IsHeld host.as_text host.takes_transition d w.store h)
    callback-IsHeld (suc (suc (suc zero))) d w h =
        save_waypoints_to_db-IsHeld host.rid_of host.takes_waypoint d w.store h
    callback-IsHeld (suc (suc (suc (suc _)))) d w h = h

    run_calls-IsHeld :
        (events : List Event) (w : World) → IsHeld w.store → IsHeld (run_calls host events w).store
    unfolding run_calls
    run_calls-IsHeld [] w h = h
    run_calls-IsHeld (called c d ∷ events) w h =
        run_calls-IsHeld events (callback host c d w) (callback-IsHeld c d w h)
    run_calls-IsHeld (logged c ∷ events) w h = run_calls-IsHeld events w h

    identified-IsHeld :
        (raises : ℕ → Data → Bool) (client_id : String) (peer : Peer) (topic : String)
        (payload : Option (List ℕ)) (w : World) (t : Try (Option ClientTlsInfo))
        → IsHeld w.store
        → IsHeld (identified host raises client_id peer topic payload w t).store
    identified-IsHeld raises client_id peer topic payload w (raised e) h = h
    identified-IsHeld raises client_id peer topic payload w (ok info) h = run_calls-IsHeld _ w h

    step-IsHeld : (r : Report) (w : World) → IsHeld w.store → IsHeld (step host r w).store
    unfolding step message_received
    step-IsHeld (connected client_id peer) w h = h
    step-IsHeld (disconnected client_id peer) w h = h
    step-IsHeld (received raises client_id peer topic payload) w h =
        if-cases (λ (v : World). IsHeld v.store) (not (starts_with topic "owntracks/")) {x = w}
          {y = identified host raises client_id peer topic payload w
            (live_tls_info_for_client w.client_tls client_id peer)}
          (λ _. h) (λ _. identified-IsHeld raises client_id peer topic payload w _ h)

    run-IsHeld :
        (reports : List Report) (w : World) → IsHeld w.store → IsHeld (run host reports w).store
    unfolding run
    run-IsHeld [] w h = h
    run-IsHeld (r ∷ reports) w h = run-IsHeld reports (step host r w) (step-IsHeld r w h)

-- Whatever clients connect, disconnect and publish, in any order: every device points at the newest report
-- of its locations, the keys of the tables stay apart, and a device that has an owner keeps it.
pub run-IsSound :
    (host : Host) (reports : List Report) (w : World)
    → IsSound w.store
    → IsSound (run host reports w).store
      × ((pk owner : ℕ)
          → IsOwned pk owner w.store.devices
          → IsOwned pk owner (run host reports w).store.devices)
run-IsSound host reports w sound =
    run-IsHeld w.store.devices host reports w (sound, λ pk owner given. given)
