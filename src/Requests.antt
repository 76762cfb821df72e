-- ===== src/Requests.antt =====
-- On-demand location requests: app/domesti_location_request.py.
pub mod Settings
pub mod Effects
pub mod Fanout
pub mod Checks
pub mod Batch
pub mod Limits
pub mod Single
use Prim.Native.String.{◌++◌}
use my_tracks.Base.{
  ℕ, ◌+◌, String, Option, none, some, List, [], ◌∷◌, map, Bool, true, false, leb, ◌==◌, ◌||◌, ◌&&◌,
  compared_texts, if◌then◌else◌,
}
use my_tracks.Text.{strip, span_slash}
use my_tracks.Commands.{amqtt_client, Client, Wire, Sent, no_client, returned, request_location}
use Settings.{
  Config, seconds, user_cooldown_seconds_for_reason, location_request_rate_limits,
  user_cooldown_end, device_cooldown_end, record_location_request, record_device_location_request,
  clear_location_request, clear_device_location_request,
}
use Effects.{
  Broker, World, Detail, invalid_reason, unknown_user, no_owned_devices, unknown_device,
  user_cooldown_active, device_cooldown_active, broker_unavailable, publish_failed, RequestError,
  Outcome, ok, raised, Request, and_then, ◌>>=◌, ◌>>◌, return, fail, except, now, locked_config,
  save_row, error,
}

pub record Device : Type 0 where
  pub device_id : String
  pub mqtt_user : String

-- A Django user with its devices in the order of `owned_devices_for_user`.
pub record Account : Type 0 where
  pub username : String
  pub is_active : Bool
  pub devices : List Device

-- `device.mqtt_user or device.owner.username`
unfoldable pub mqtt_device_id_for_device : Account → Device → String
mqtt_device_id_for_device owner device =
    (if device.mqtt_user == "" then owner.username else device.mqtt_user)
    ++ ("/" ++ device.device_id)

-- the text behind the first slash, if there is a slash
abbrev bare_id : String × Option String → String
bare_id (whole, none) = whole
bare_id (user, some rest) = rest

find_device : List Device → String → Option Device
find_device [] device_id = none
find_device (d ∷ ds) device_id =
    let found = find_device ds device_id in if d.device_id == device_id then some d else found

unfoldable pub device_for_user : Account → String → Option Device
unfolding find_device
device_for_user user device_id = find_device user.devices (bare_id (span_slash (strip device_id)))

unfoldable pub is_valid_reason : String → Bool
is_valid_reason reason =
    reason == "accuracy_streak"
    || reason == "deferred_edge"
    || reason == "boundary_proximity"
    || reason == "stale_watchdog"
    || reason == "approach_monitoring"

unfoldable pub validate_reason : String → Request (Unit {0})
validate_reason reason =
    if is_valid_reason reason then return tt else fail (error (invalid_reason reason) 400)

unfoldable pub find_active : List Account → String → Option Account
find_active [] username = none
find_active (a ∷ rest) username =
    let found = find_active rest username in
    if a.username == username && a.is_active then some a else found

unfoldable pub active_user : List Account → String → Request Account
active_user accounts user_id = elim (find_active accounts (strip user_id)) [
  | none ↦ fail (error (unknown_user (strip user_id)) 404)
  | some user ↦ return user
]

-- `cooldown_end <= now` is no cooldown
abbrev pub still_active : Option ℕ → Request (Option ℕ)
still_active none = return none
still_active (some end) = do t ← now; return (if leb end t then none else some end)

unfoldable pub cooldown_until_for_user : Config → String → String → Request (Option ℕ)
cooldown_until_for_user config user_id reason =
    still_active (user_cooldown_end config user_id reason)

unfoldable pub cooldown_until_for_device : Config → String → Request (Option ℕ)
cooldown_until_for_device config mqtt_device_id =
    still_active (device_cooldown_end config mqtt_device_id)

unfoldable pub user_cooldown_error : Config → ℕ → RequestError
user_cooldown_error config until = record {
  detail = user_cooldown_active;
  status_code = 409;
  cooldown_until = some until;
  rate_limits = some (location_request_rate_limits config);
}

unfoldable pub device_cooldown_error : ℕ → RequestError
device_cooldown_error until = record (error device_cooldown_active 409) {
  cooldown_until = some until;
}

unfoldable pub reserve_user_cooldown : String → String → Request ℕ
unfolding cooldown_until_for_user
reserve_user_cooldown user_id reason = do
  config ← locked_config
  active ← cooldown_until_for_user config user_id reason
  elim active [
    | some until ↦ fail (user_cooldown_error config until)
    | none ↦ do
      requested_at ← now
      save_row (record_location_request config user_id requested_at)
      return requested_at
  ]

unfoldable pub reserve_device_cooldown : String → Request ℕ
unfolding cooldown_until_for_device
reserve_device_cooldown mqtt_device_id = do
  config ← locked_config
  active ← cooldown_until_for_device config mqtt_device_id
  elim active [
    | some until ↦ fail (device_cooldown_error until)
    | none ↦ do
      requested_at ← now
      save_row (record_device_location_request config mqtt_device_id requested_at)
      return requested_at
  ]

unfoldable pub command_publisher : Option Broker → Option Client
command_publisher none = none
command_publisher (some broker) =
    if broker.is_running then amqtt_client broker.amqtt_broker else none

abbrev pub answer : Sent → Request (Unit {0})
answer no_client = fail (error broker_unavailable 503)
answer (returned false) = fail (error publish_failed 503)
answer (returned true) = return tt

unfoldable pub publish_report_location : String → Request (Unit {0})
publish_report_location mqtt_device_id w =
    let (sent, wire) = request_location (command_publisher w.broker) mqtt_device_id w.wire in
    answer sent (record w { wire = wire })

-- `config.save(update_fields=…)` writes the one column, from the object that the request holds.
abbrev pub save_device_stamps : Config → Request (Unit {0})
save_device_stamps config w =
    (ok tt, record w { row = record w.row { last_by_device = config.last_by_device } })

-- the `for` loop of `request_all_devices_location`, which returns the object that it has changed
unfoldable pub publish_each : Config → List String → Request Config
publish_each config [] = return config
publish_each config (id ∷ ids) = do
  publish_report_location id
  t ← now
  let changed = record_device_location_request config id t
  save_device_stamps changed
  publish_each changed ids

pub record BatchResult : Type 0 where
  pub user_id : String
  pub device_ids : List String
  pub requested_at : ℕ
  pub cooldown_until : ℕ
  pub reason : String

pub record DeviceResult : Type 0 where
  pub user_id : String
  pub device_id : String
  pub requested_at : ℕ
  pub cooldown_until : ℕ
  pub reason : String

-- the 404 of a user with no devices
abbrev pub require_devices : Account → List Device → Request (List Device)
require_devices user [] = fail (error (no_owned_devices user.username) 404)
require_devices user (d ∷ ds) = return (d ∷ ds)

abbrev pub require_device : Account → Option Device → Request Device
require_device user none = fail (error (unknown_device user.username) 404)
require_device user (some device) = return device

-- `config` is the object that the job read before.
unfoldable pub request_all_devices_location :
    List Account → Config → String → String → Request BatchResult
request_all_devices_location accounts config user_id reason = do
  validate_reason reason
  user ← active_user accounts user_id
  devices ← require_devices user user.devices
  let ids = map (mqtt_device_id_for_device user) devices
  requested_at ← reserve_user_cooldown user.username reason
  _ ←
      except (publish_each config ids)
        (λ row. clear_location_request row user.username requested_at)
  return (record {
    user_id = user.username;
    device_ids = ids;
    requested_at = requested_at;
    cooldown_until = requested_at + seconds (user_cooldown_seconds_for_reason config reason);
    reason = reason;
  })

unfoldable pub request_single_device_location :
    List Account → Config → String → String → String → Request DeviceResult
request_single_device_location accounts config user_id device_id reason = do
  validate_reason reason
  user ← active_user accounts user_id
  device ← require_device user (device_for_user user device_id)
  let id = mqtt_device_id_for_device user device
  requested_at ← reserve_device_cooldown id
  except (publish_report_location id) (λ row. clear_device_location_request row id requested_at)
  return (record {
    user_id = user.username;
    device_id = id;
    requested_at = requested_at;
    cooldown_until = requested_at + seconds config.device_cooldown;
    reason = reason;
  })
