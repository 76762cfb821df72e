-- ===== src/Tests/Handlers.antt =====
-- OwnTracks messages at concrete inputs.
use my_tracks.Base.{
  ℕ, none, some, List, [], ◌∷◌, All, Bool, ◌==◌, compared_numbers, compared_texts, ◌≡◌, refl, arith,
}
use my_tracks.Base.Int.{pos}
use my_tracks.Base.Table.{put, pop}
use my_tracks.Json.{Json, Fields, field, end, get}
use my_tracks.Numbers.{overflow_error, ok, raised, int, float, fromtimestamp, int_of_text}
use my_tracks.Topic.{TopicInfo, parse_owntracks_topic}
use my_tracks.Text.{split_slash}
use my_tracks.Extraction.{
  Data, word, moment, number, integer, cut, extract_location_optional_fields, extract_location_data,
  parse_owntracks_unix_timestamp, optional_int, location_fields, update,
}
use my_tracks.Extraction.Columns.{IsColumnValue, extract_location_optional_fields-IsColumnValue}
use my_tracks.Extraction.Located.{IsLocated, extract_location_data-IsLocated}
use my_tracks.Handlers.{Loaded, loaded, Handler, Origin, handle_message, parse_owntracks_message}
use my_tracks.Handlers.Dispatch.{Dispatch, handle_message-Dispatch}
use my_tracks.Handlers.Escapes.{handle_message-overflow}

abbrev optional : Fields
optional = field "t" (Json.text "p") (field "bs" (Json.text " 2 ") end)

abbrev full : Fields
full = field "_type" (Json.text "location") (
    field "lat" (Json.text "51.5")
      (field "lon" (Json.int (pos 0)) (field "tst" (Json.int (pos 1700000000)) optional)))

abbrev phone : TopicInfo
phone = record { user = "alice"; device = "phone"; subtopic = none }

abbrev read_optional : Data
read_optional = ("battery_status", integer (pos 2)) ∷ ("trigger", cut 10 (Json.text "p")) ∷ []

extract_location_optional_fields-IsColumnValue_example : All IsColumnValue read_optional
unfolding extract_location_optional_fields parse_owntracks_unix_timestamp optional_int get int
    int_of_text put
extract_location_optional_fields-IsColumnValue_example =
    extract_location_optional_fields-IsColumnValue optional read_optional refl

abbrev read_full : Data
read_full =
    ("battery_status", integer (pos 2))
    ∷ ("trigger", cut 10 (Json.text "p"))
    ∷ ("device", word "phone")
    ∷ ("latitude", number (Json.text "51.5"))
    ∷ ("longitude", number (Json.int (pos 0)))
    ∷ ("timestamp", moment (pos 1700000000))
    ∷ ("tracker_id", word "phone")
    ∷ []

read_full_lem : extract_location_data full phone ≡ ok (some read_full)
unfolding extract_location_data extract_location_optional_fields parse_owntracks_unix_timestamp
    optional_int location_fields update get int float fromtimestamp int_of_text put pop
read_full_lem = refl

extract_location_data-IsLocated_example : IsLocated full phone read_full
extract_location_data-IsLocated_example =
    extract_location_data-IsLocated full phone read_full read_full_lem

abbrev session : Origin
session = record { client_ip = none; transport = "mqtt"; tls_identity = ""; tls_cn = "" }

-- Three functions: two for locations, of which the first always raises, and one for commands.
abbrev registered : Handler
registered = record {
  location_callbacks = 0 ∷ 1 ∷ [];
  lwt_callbacks = [];
  transition_callbacks = [];
  waypoint_callbacks = [];
  cmd_callbacks = 2 ∷ [];
}

abbrev raises : ℕ → Data → Bool
raises c d = c == 0

abbrev loads : List ℕ → Loaded
loads payload = loaded (Json.object full)

handle_message-Dispatch_example :
    Dispatch raises loads registered "owntracks/alice/phone"
      (some [])
      session
      (handle_message raises loads registered "owntracks/alice/phone" (some []) session)
handle_message-Dispatch_example =
    handle_message-Dispatch raises loads registered "owntracks/alice/phone" (some []) session

abbrev late : Fields
late = field "_type" (Json.text "location") (
    field "lat" (Json.int (pos 1))
      (field "lon" (Json.int (pos 2)) (field "tst" (Json.int (pos 100000000000000000000)) end)))

handle_message-overflow_example :
    handle_message raises
      (λ _. loaded (Json.object late))
      registered
      "owntracks/alice/phone"
      (some [])
      session
    ≡ ([], raised overflow_error)
unfolding parse_owntracks_topic parse_owntracks_message split_slash get
handle_message-overflow_example =
    handle_message-overflow raises (λ _. loaded (Json.object late)) registered
      "owntracks/alice/phone" (some []) session phone late 100000000000000000000 refl refl refl refl
      refl refl (omega arith)
