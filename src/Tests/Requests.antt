-- ===== src/Tests/Requests.antt =====
-- A batch request for two devices, and the request that follows at once.
use my_tracks.Base.Table.{get, put, pop}
use my_tracks.Text.{strip, span_slash}
use my_tracks.Topic.{get_command_topic, parse_device_id}
use my_tracks.Base.{◌+◌, ◌<◌, String, some, List, [], ◌∷◌, true, ◌≡◌, refl, arith}
use my_tracks.Commands.{
  Publication, to_mqtt_payload, report_location_command, request_location, send_command,
}
use my_tracks.Requests.{
  Account, BatchResult, user_cooldown_error, validate_reason, is_valid_reason, active_user,
  find_active, mqtt_device_id_for_device, reserve_user_cooldown, cooldown_until_for_user,
  publish_each, publish_report_location, command_publisher, request_all_devices_location,
  request_single_device_location,
}
use my_tracks.Requests.Settings.{
  Config, at, seconds, user_cooldown_seconds_for_reason, user_cooldown_end, record_location_request,
  record_device_location_request,
}
use my_tracks.Requests.Effects.{World, ok, raised}
use my_tracks.Requests.Batch.{BatchEffect, request_all_devices_location-Effect}
use my_tracks.Requests.Single.{DeviceEffect, request_single_device_location-Effect}
use my_tracks.Requests.Limits.{request_all_devices_location_limited}

abbrev pub alice : Account
alice = record {
  username = "alice";
  is_active = true;
  devices =
      record { device_id = "phone"; mqtt_user = "" }
      ∷ record { device_id = "tablet"; mqtt_user = "al" }
      ∷ [];
}

abbrev pub accounts : List Account
accounts = alice ∷ []

abbrev pub config : Config
config = record { user_cooldown = 60; device_cooldown = 30; last_by_user = []; last_by_device = [] }

abbrev pub world : World
world = record {
  row = config;
  clock = λ n. 1000 + n;
  readings = 0;
  broker = some (record { is_running = true; amqtt_broker = some (λ n. true) });
  wire = record { published = []; calls = 0 };
}

abbrev result : BatchResult
result = record {
  user_id = "alice";
  device_ids = "alice/phone" ∷ "al/tablet" ∷ [];
  requested_at = 1000;
  cooldown_until = 60001000;
  reason = "deferred_edge";
}

abbrev report : String → Publication
report topic = record { topic = topic; payload = to_mqtt_payload report_location_command; qos = 0 }

abbrev after : World
after = record world {
  row = record config {
    last_by_user = ("alice", at 1000) ∷ [];
    last_by_device = ("al/tablet", at 1002) ∷ ("alice/phone", at 1001) ∷ [];
  };
  readings = 3;
  wire = record {
    published = report "owntracks/alice/phone/cmd" ∷ report "owntracks/al/tablet/cmd" ∷ [];
    calls = 2;
  };
}

runs : Unit {0}
unfolding span_slash request_all_devices_location validate_reason is_valid_reason active_user
    find_active strip mqtt_device_id_for_device reserve_user_cooldown cooldown_until_for_user
    user_cooldown_end user_cooldown_seconds_for_reason record_location_request publish_each
    publish_report_location command_publisher request_location send_command parse_device_id
    record_device_location_request get put pop get_command_topic report_location_command
runs = tt

request_runs :
    request_all_devices_location accounts config " alice " "deferred_edge" world
    ≡ (ok result, after)
unfolding runs
request_runs = refl

request_all_devices_location-Effect_example :
    BatchEffect accounts config "alice" "deferred_edge" world
      (request_all_devices_location accounts config "alice" "deferred_edge" world).0
      (request_all_devices_location accounts config "alice" "deferred_edge" world).1
request_all_devices_location-Effect_example =
    request_all_devices_location-Effect accounts config "alice" "deferred_edge" world

approach_is_valid : is_valid_reason "approach_monitoring" ≡ true
unfolding is_valid_reason
approach_is_valid = refl

approach_is_early :
    after.clock after.readings
    < 1000 + seconds (user_cooldown_seconds_for_reason after.row "approach_monitoring")
unfolding user_cooldown_seconds_for_reason
approach_is_early = omega arith

request_all_devices_location_limited_example :
    request_all_devices_location accounts config " alice " "approach_monitoring" after ≡ (
      raised (
          user_cooldown_error after.row
            (1000 + seconds (user_cooldown_seconds_for_reason after.row "approach_monitoring"))),
      record after { readings = after.readings + 1 },
    )
request_all_devices_location_limited_example =
    request_all_devices_location_limited accounts config config " alice " "deferred_edge"
      "approach_monitoring" world after after result request_runs refl approach_is_valid
      approach_is_early

request_single_device_location-Effect_example :
    DeviceEffect accounts config "alice" "al/tablet" "stale_watchdog" world
      (request_single_device_location accounts config "alice" "al/tablet" "stale_watchdog" world).0
      (request_single_device_location accounts config "alice" "al/tablet" "stale_watchdog" world).1
request_single_device_location-Effect_example =
    request_single_device_location-Effect accounts config "alice" "al/tablet" "stale_watchdog" world
