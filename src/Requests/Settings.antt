-- ===== src/Requests/Settings.antt =====
-- The cooldowns of app/domesti_location_request.py over the fields of DomestiBotConfig that it reads
-- and writes. Instants are microseconds; a stored ISO text stands for the instant that it prints, and
-- is `unreadable` where `datetime.fromisoformat` refuses it or it is empty.
use my_tracks.Base.{
  ℕ, ◌+◌, ◌*◌, String, Option, none, some, ◌==◌, compared_numbers, compared_texts, if◌then◌else◌,
}
use my_tracks.Base.Table.{Table, get, put, pop}

pub data Stamp : Type 0 where
  at : ℕ → Stamp
  unreadable : Stamp

pub record Config : Type 0 where
  pub user_cooldown : ℕ
  pub device_cooldown : ℕ
  pub last_by_user : Table Stamp
  pub last_by_device : Table Stamp

-- timedelta(seconds=s)
abbrev pub seconds : ℕ → ℕ
seconds s = s * 1000000

abbrev pub approach_monitoring_cooldown : ℕ
approach_monitoring_cooldown = 5

unfoldable pub user_cooldown_seconds_for_reason : Config → String → ℕ
user_cooldown_seconds_for_reason config reason =
    if reason == "approach_monitoring" then approach_monitoring_cooldown else config.user_cooldown

pub record RateLimits : Type 0 where
  pub user_cooldown_seconds : ℕ
  pub device_cooldown_seconds : ℕ
  pub approach_monitoring_seconds : ℕ

unfoldable pub location_request_rate_limits : Config → RateLimits
location_request_rate_limits config = record {
  user_cooldown_seconds = config.user_cooldown;
  device_cooldown_seconds = config.device_cooldown;
  approach_monitoring_seconds = approach_monitoring_cooldown;
}

-- When a cooldown of `length` seconds from a stored stamp ends.
abbrev pub cooldown_end : Option Stamp → ℕ → Option ℕ
cooldown_end none length = none
cooldown_end (some unreadable) length = none
cooldown_end (some (at t)) length = some (t + seconds length)

unfoldable pub user_cooldown_end : Config → String → String → Option ℕ
unfolding user_cooldown_seconds_for_reason
user_cooldown_end config user_id reason =
    cooldown_end (get config.last_by_user user_id) (user_cooldown_seconds_for_reason config reason)

unfoldable pub device_cooldown_end : Config → String → Option ℕ
device_cooldown_end config mqtt_device_id =
    cooldown_end (get config.last_by_device mqtt_device_id) config.device_cooldown

unfoldable pub record_location_request : Config → String → ℕ → Config
record_location_request config user_id requested_at = record config {
  last_by_user = put config.last_by_user user_id (at requested_at);
}

unfoldable pub record_device_location_request : Config → String → ℕ → Config
record_device_location_request config mqtt_device_id requested_at = record config {
  last_by_device = put config.last_by_device mqtt_device_id (at requested_at);
}

-- A reservation is removed only if it is still the one made at `requested_at`.
abbrev pub clear_if_ours : Table Stamp → String → ℕ → Option Stamp → Table Stamp
clear_if_ours stamps key requested_at none = stamps
clear_if_ours stamps key requested_at (some unreadable) = stamps
clear_if_ours stamps key requested_at (some (at t)) =
    if t == requested_at then pop stamps key else stamps

unfoldable pub clear_location_request : Config → String → ℕ → Config
clear_location_request config user_id requested_at = record config {
  last_by_user =
      clear_if_ours config.last_by_user user_id requested_at (get config.last_by_user user_id);
}

unfoldable pub clear_device_location_request : Config → String → ℕ → Config
clear_device_location_request config mqtt_device_id requested_at = record config {
  last_by_device =
      clear_if_ours config.last_by_device mqtt_device_id requested_at
        (get config.last_by_device mqtt_device_id);
}
