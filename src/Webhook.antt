-- ===== src/Webhook.antt =====
-- The relay of saved locations to domesti-bot: app/domesti_relay.py and, of app/domesti_bot.py, the
-- fingerprints, the payload, the posting and the log of deliveries.
pub mod Deliveries
use Prim.Native.String.{◌++◌ as text_append}
use my_tracks.Base.{
  ℕ, suc, zero, String, Option, none, some, List, [], ◌∷◌, ◌++◌, length, Bool, true, false, not,
  ◌&&◌, ◌||◌, ltb, leb, ◌==◌, compared_texts, if◌then◌else◌,
}
use my_tracks.Base.Table.{Table, get, put}
use my_tracks.Json.{Json, Fields, get as field_of}
use my_tracks.Text.{strip}
use my_tracks.Latest.{reported}
use my_tracks.Extraction.{is_null, truthy, value_of}

-- A saved location with what the relay reads of its device; `columns` are its other columns by their
-- names, and latitude and longitude are the decimals' texts.
pub record Row : Type 0 where
  pub owner : Option String
  pub device_id : String
  pub mqtt_user : String
  pub message_id : String
  pub timestamp : ℕ
  pub received_at : ℕ
  pub created_at : Option ℕ
  pub latitude : String
  pub longitude : String
  pub columns : Fields

abbrev pub Payload : Type 0
Payload = Table Json

-- An entry of the activity log, less its texts for people, its source and its times; `http_status` is
-- none where there was no answer.
pub record Entry : Type 0 where
  pub success : Bool
  pub http_status : Option ℕ
  pub post_url : String
  pub payload : Payload

-- The fields of DomestiBotConfig that the relay uses; `api_key` is none where get_api_key raises.
pub record RelayConfig : Type 0 where
  pub is_paired : Bool
  pub location_updates_enabled : Bool
  pub user_location_update_url : String
  pub user_location_test_url : String
  pub api_key : Option String
  pub last_relayed_location_by_user : Table String
  pub recent_webhook_log : List Entry

pub record Post : Type 0 where
  pub url : String
  pub api_key : String
  pub payload : Payload

-- What comes back for a request: a status, or an error without one.
pub data Answer : Type 0 where
  status : ℕ → Answer
  unreachable : Answer

-- `answers` gives what comes back for each request in turn.
pub record World : Type 0 where
  pub config : RelayConfig
  pub posts : List Post
  pub answers : ℕ → Answer

pub data Source : Type 0 where
  live test : Source

-- An empty address is a ValueError.
abbrev configured : String → Option String
configured url = if url == "" then none else some url

unfoldable pub location_post_url_for_source : RelayConfig → Source → Option String
unfolding strip
location_post_url_for_source config test = configured (strip config.user_location_test_url)
location_post_url_for_source config live = configured (strip config.user_location_update_url)

abbrev pub log_max : ℕ
log_max = 5

abbrev pub first_of : ℕ → List Entry → List Entry
first_of zero entries = []
first_of (suc n) [] = []
first_of (suc n) (e ∷ entries) = e ∷ first_of n entries

unfoldable pub append_webhook_log_entry : Entry → RelayConfig → RelayConfig
append_webhook_log_entry entry config = record config {
  recent_webhook_log = first_of log_max (entry ∷ config.recent_webhook_log);
}

abbrev same_text : Option String → String → Bool
same_text none s = false
same_text (some t) s = t == s

unfoldable pub already_relayed_location : RelayConfig → String → String → Bool
already_relayed_location config user_id fingerprint =
    same_text (get config.last_relayed_location_by_user user_id) fingerprint

unfoldable pub record_relayed_location : String → String → RelayConfig → RelayConfig
record_relayed_location user_id fingerprint config = record config {
  last_relayed_location_by_user = put config.last_relayed_location_by_user user_id fingerprint;
}

-- `success = 200 <= status < 300`; an HTTPError has a status too
abbrev pub is_success : Answer → Bool
is_success (status code) = leb 200 code && ltb code 300
is_success unreachable = false

abbrev status_of : Answer → Option ℕ
status_of (status code) = some code
status_of unreachable = none

-- `iso` prints an instant in UTC with a Z, `as_float` is float() of a decimal.
module _ (iso : ℕ → String) (as_float : String → Json) where
  abbrev place : Row → String
  place row = text_append row.latitude (text_append "|" row.longitude)

  abbrev dated_fingerprint : String → Option ℕ → Row → String
  dated_fingerprint user_id (some created_at) row =
      text_append user_id
        (text_append "|report:" (text_append (iso created_at) (text_append "|" (place row))))
  dated_fingerprint user_id none row =
      text_append user_id
        (text_append "|fix:" (text_append (iso row.timestamp) (text_append "|" (place row))))

  unfoldable pub location_relay_fingerprint : String → Row → String
  unfolding strip
  location_relay_fingerprint user_id row =
      let message_id = strip row.message_id in
      if not (message_id == "")
      then text_append user_id (text_append "|msg:" message_id)
      else dated_fingerprint user_id row.created_at row

  -- a column that is not None, and one that is not empty either
  abbrev present : Fields → String → String → Payload → Payload
  present columns name as_name payload =
      if is_null (value_of columns name)
      then payload
      else put payload as_name (value_of columns name)

  abbrev nonempty : Fields → String → String → Payload → Payload
  nonempty columns name as_name payload =
      if truthy (value_of columns name)
      then put payload as_name (value_of columns name)
      else payload

  abbrev created_field : Option ℕ → Payload → Payload
  created_field none payload = payload
  created_field (some t) payload = put payload "owntracks_created_at" (Json.text (iso t))

  unfoldable pub location_metadata_for_webhook : Row → Payload → Payload
  unfolding truthy
  location_metadata_for_webhook row payload =
      let c = row.columns in
      let named =
        if row.message_id == ""
        then payload
        else put payload "owntracks_message_id" (Json.text row.message_id) in
      let sensed = present c "monitoring_mode" "monitoring_mode" (
        present c "course" "course" (
          present c "vertical_accuracy" "vertical_accuracy_m" (
            nonempty c "fix_source" "fix_source" (
              present c "battery_status" "battery_status"
                (nonempty c "trigger" "trigger" (created_field row.created_at named)))))) in
      let placed =
        nonempty c "in_regions" "in_regions"
          (nonempty c "wifi_ssid" "wifi_ssid" (nonempty c "wifi_bssid" "wifi_bssid" sensed)) in
      let moved =
        present c "battery_level" "battery_level"
          (present c "velocity" "velocity_kmh" (present c "altitude" "altitude_m" placed)) in
      put (nonempty c "tracker_id" "tracker_id" moved) "received_at"
        (Json.text (iso row.received_at))

  unfoldable pub build_location_webhook_payload : String → Row → Payload
  unfolding location_metadata_for_webhook truthy
  build_location_webhook_payload user_id row =
      let first : Payload =
        ("user_id", Json.text user_id)
        ∷ ("lat", as_float row.latitude)
        ∷ ("lon", as_float row.longitude)
        ∷ ("timestamp", Json.text (iso row.timestamp))
        ∷ ("source", Json.text "my-tracks")
        ∷ ("device_id", Json.text row.device_id)
        ∷ ("mqtt_user", Json.text (if row.mqtt_user == "" then user_id else row.mqtt_user))
        ∷ ("reported_at", Json.text (iso (reported row.created_at row.received_at)))
        ∷ [] in
      location_metadata_for_webhook row (
        nonempty row.columns "connection_type" "connection_type"
          (present row.columns "accuracy" "accuracy_m" first))

  abbrev logged : Entry → World → World
  logged entry w = record w { config = append_webhook_log_entry entry w.config }

  -- A failure that is recorded without a request.
  abbrev pub record_webhook_delivery_failure : String → Payload → World → World
  record_webhook_delivery_failure url payload w =
      logged (record { success = false; http_status = none; post_url = url; payload = payload }) w

  abbrev pub entry_for : String → Payload → Answer → Entry
  entry_for url payload answer = record {
    success = is_success answer;
    http_status = status_of answer;
    post_url = url;
    payload = payload;
  }

  -- The request, its entry in the log and whether it succeeded.
  unfoldable pub send_location_webhook : String → String → Payload → World → Bool × World
  unfolding append_webhook_log_entry
  send_location_webhook url api_key payload w =
      let answer = w.answers (length w.posts) in
      (
        is_success answer,
        record w {
          config = append_webhook_log_entry (entry_for url payload answer) w.config;
          posts = w.posts ++ record { url = url; api_key = api_key; payload = payload } ∷ [];
        },
      )

  abbrev pub settled : String → String → Bool × World → World
  settled user_id fingerprint (true, w) = record w {
    config = record_relayed_location user_id fingerprint w.config;
  }
  settled user_id fingerprint (false, w) = w

  -- From the key on: no key, or one that cannot be read, is an exception.
  abbrev pub deliver_with : String → String → String → Option String → Payload → World → World
  deliver_with user_id fingerprint url none payload w =
      record_webhook_delivery_failure url payload w
  deliver_with user_id fingerprint url (some key) payload w =
      if key == ""
      then record_webhook_delivery_failure url payload w
      else settled user_id fingerprint (send_location_webhook url key payload w)

  -- Without an address neither the delivery nor its failure can be recorded.
  abbrev pub deliver : String → String → Option String → Payload → World → World
  deliver user_id fingerprint none payload w = w
  deliver user_id fingerprint (some url) payload w =
      deliver_with user_id fingerprint url w.config.api_key payload w

  abbrev pub relay_for : Option String → Row → World → World
  relay_for none row w = w
  relay_for (some user_id) row w =
      if not w.config.is_paired || not w.config.location_updates_enabled
      then w
      else if already_relayed_location w.config user_id (location_relay_fingerprint user_id row)
      then w
      else deliver user_id (location_relay_fingerprint user_id row)
          (location_post_url_for_source w.config live) (build_location_webhook_payload user_id row)
          w

  unfoldable pub relay_location_to_domesti_bot : Row → World → World
  unfolding already_relayed_location location_relay_fingerprint location_post_url_for_source
      build_location_webhook_payload send_location_webhook record_relayed_location
      append_webhook_log_entry
  relay_location_to_domesti_bot row w = relay_for row.owner row w
