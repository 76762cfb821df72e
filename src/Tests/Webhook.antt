-- ===== src/Tests/Webhook.antt =====
-- The relay to domesti-bot at concrete inputs.
use my_tracks.Base.{none, some, [], length, true, ◌≡◌, refl}
use my_tracks.Base.Table.{get, put}
use my_tracks.Json.{Json, end}
use my_tracks.Webhook.{Row, World, status, relay_location_to_domesti_bot}
use my_tracks.Webhook.Deliveries.{Delivery, relay_location_to_domesti_bot-Delivery}

abbrev row : Row
row = record {
  owner = some "alice";
  device_id = "phone";
  mqtt_user = "alice";
  message_id = "m1";
  timestamp = 100;
  received_at = 101;
  created_at = none;
  latitude = "51.5";
  longitude = "7.5";
  columns = end;
}

abbrev world : World
world = record {
  config = record {
    is_paired = true;
    location_updates_enabled = true;
    user_location_update_url = "https://bot/update";
    user_location_test_url = "https://bot/test";
    api_key = some "key";
    last_relayed_location_by_user = [];
    recent_webhook_log = [];
  };
  posts = [];
  answers = λ n. status 200;
}

relay_location_to_domesti_bot-Delivery_example :
    Delivery
      (λ t. "1970-01-01T00:01:40Z")
      Json.text
      row
      world
      (relay_location_to_domesti_bot (λ t. "1970-01-01T00:01:40Z") Json.text row world)
relay_location_to_domesti_bot-Delivery_example =
    relay_location_to_domesti_bot-Delivery (λ t. "1970-01-01T00:01:40Z") Json.text row world

posted_once :
    length
      (relay_location_to_domesti_bot
        (λ t. "1970-01-01T00:01:40Z")
        Json.text
        row
        (relay_location_to_domesti_bot (λ t. "1970-01-01T00:01:40Z") Json.text row world)).posts
    ≡ 1
unfolding relay_location_to_domesti_bot get put
posted_once = refl
