-- ===== src/Extraction.antt =====
-- What is read out of an OwnTracks message: app/mqtt/handlers.py (parse_owntracks_unix_timestamp,
-- _optional_int and the extract_* functions). The dictionary that a function returns is a table, and
-- a value of it says which Python value the source puts there.
pub mod Columns
pub mod Located
use my_tracks.Base.{
  ℕ, String, Option, none, some, List, [], ◌∷◌, Bool, true, false, not, ◌==◌, compared_texts,
  compared_numbers, if◌then◌else◌, ◌||◌, ◌&&◌, ◌%◌,
}
use Prim.Native.Nat.{◌^◌}
use my_tracks.Base.Int.{ℤ, pos, negsuc}
use my_tracks.Base.Table.{Table, put}
use my_tracks.Json.{Json, Items, Fields, get}
use my_tracks.Numbers.{
  PyError, value_error, type_error, os_error, overflow_error, Try, ok, raised, ◌>>=◌, int, float,
  fromtimestamp,
}
use my_tracks.Topic.{TopicInfo}

pub record Waypoint : Type 0 where
  pub desc : Json
  pub lat : Json
  pub lon : Json
  pub rad : Json

-- `moment t` is the instant t seconds after the epoch, `clock_reading` what `datetime.now` gives at the
-- call, `number v` is float(v) and `cut n v` is str(v)[:n].
pub data Value : Type 0 where
  absent clock_reading : Value
  json number : Json → Value
  moment integer : ℤ → Value
  cut : ℕ → Json → Value
  word : String → Value
  waypoint_list : List Waypoint → Value

abbrev pub Data : Type 0
Data = Table Value

abbrev null_or : Option Json → Json
null_or none = Json.null
null_or (some v) = v

-- message.get(key), where a missing key and a JSON null both give None
abbrev pub value_of : Fields → String → Json
value_of message key = null_or (get message key)

abbrev pub is_null : Json → Bool
is_null Json.null = true
is_null _ = false

-- value == text
abbrev pub is_text : Json → String → Bool
is_text (Json.text s) t = s == t
is_text _ t = false

-- Python's truth of a value
unfoldable pub truthy : Json → Bool
truthy Json.null = false
truthy (Json.boolean b) = b
truthy (Json.int (pos n)) = not (n == 0)
truthy (Json.int (negsuc n)) = true
truthy (Json.float bits) = not (bits % 2 ^ 63 == 0)
truthy (Json.text s) = not (s == "")
truthy (Json.array Items.nil) = false
truthy (Json.array (Items.cons _ _)) = true
truthy (Json.object Fields.end) = false
truthy (Json.object (Fields.field _ _ _)) = true

-- except ValueError, TypeError, OSError: None
abbrev pub caught : {A : Type 0} → Try A → Try (Option A)
caught (ok a) = ok (some a)
caught (raised value_error) = ok none
caught (raised type_error) = ok none
caught (raised os_error) = ok none
caught (raised overflow_error) = raised overflow_error

-- except ValueError, TypeError: None
abbrev pub unless_invalid : {A : Type 0} → Try A → Try (Option A)
unless_invalid (ok a) = ok (some a)
unless_invalid (raised value_error) = ok none
unless_invalid (raised type_error) = ok none
unless_invalid (raised os_error) = raised os_error
unless_invalid (raised overflow_error) = raised overflow_error

unfoldable pub parse_owntracks_unix_timestamp : Json → Try (Option ℤ)
parse_owntracks_unix_timestamp value =
    if is_null value then ok none else caught (int value >>= fromtimestamp)

unfoldable pub optional_int : Json → Try (Option ℤ)
optional_int value = if is_null value then ok none else unless_invalid (int value)

abbrev pub put_if : (ℤ → Value) → String → Option ℤ → Data → Data
put_if as_value name none fields = fields
put_if as_value name (some n) fields = put fields name (as_value n)

abbrev pub cut_field : Option Json → String → ℕ → Data → Data
cut_field none name size fields = fields
cut_field (some v) name size fields = put fields name (cut size v)

abbrev pub int_field : Option Json → String → Data → Try Data
int_field none name fields = ok fields
int_field (some v) name fields = do n ← optional_int v; ok (put_if integer name n fields)

abbrev pub region_field : Option Json → Data → Data
region_field (some (Json.array regions)) fields =
    put fields "in_regions" (json (Json.array regions))
region_field _ fields = fields

unfoldable pub extract_location_optional_fields : Fields → Try Data
unfolding parse_owntracks_unix_timestamp optional_int
extract_location_optional_fields message = do
  created_at ← parse_owntracks_unix_timestamp (value_of message "created_at")
  let named = cut_field (get message "_id") "owntracks_message_id" 64 []
  let created = put_if moment "owntracks_created_at" created_at named
  battery ←
      int_field (get message "bs") "battery_status"
        (cut_field (get message "t") "trigger" 10 created)
  vertical ←
      int_field (get message "vac") "vertical_accuracy"
        (cut_field (get message "source") "fix_source" 20 battery)
  course ← int_field (get message "cog") "course" vertical
  mode ← int_field (get message "m") "monitoring_mode" course
  let bssid = cut_field (get message "BSSID") "wifi_bssid" 32 mode
  let ssid = cut_field (get message "SSID") "wifi_ssid" 64 bssid
  ok (region_field (get message "inregions") ssid)

-- first.update(second)
unfoldable pub update : Data → Data → Data
update first [] = first
update first ((name, v) ∷ rest) = put (update first rest) name v

abbrev pub copy_field : Option Json → String → Data → Data
copy_field none name fields = fields
copy_field (some v) name fields = put fields name (json v)

-- message.get("tid", topic_info["device"])
abbrev pub tracker : Option Json → String → Value
tracker none device = word device
tracker (some v) device = json v

unfoldable pub location_fields : Fields → TopicInfo → Json → Json → ℤ → Data
location_fields message info latitude longitude timestamp =
    copy_field (get message "conn") "connection" (
      copy_field (get message "batt") "battery" (
        copy_field (get message "vel") "velocity" (
          copy_field (get message "alt") "altitude" (
            copy_field (get message "acc") "accuracy" (
              ("device", word info.device)
              ∷ ("latitude", number latitude)
              ∷ ("longitude", number longitude)
              ∷ ("timestamp", moment timestamp)
              ∷ ("tracker_id", tracker (get message "tid") info.device)
              ∷ [])))))

abbrev pub dated : Fields → TopicInfo → Json → Json → Option ℤ → Try (Option Data)
dated message info lat lon none = ok none
dated message info lat lon (some timestamp) = do
  latitude ← float lat
  longitude ← float lon
  optional ← extract_location_optional_fields message
  ok (some (update (location_fields message info latitude longitude timestamp) optional))

abbrev pub located : Fields → TopicInfo → Json → Json → Json → Try (Option Data)
located message info lat lon tst =
    if is_null lat || is_null lon || is_null tst
    then ok none
    else caught (int tst >>= fromtimestamp) >>= dated message info lat lon

unfoldable pub extract_location_data : Fields → TopicInfo → Try (Option Data)
unfolding location_fields update
extract_location_data message info =
    if not (is_text (value_of message "_type") "location")
    then ok none
    else located message info (value_of message "lat") (value_of message "lon")
        (value_of message "tst")

abbrev instant_or_absent : Option ℤ → Value
instant_or_absent none = absent
instant_or_absent (some t) = moment t

-- `if tst:` and the conversion under it
abbrev pub since : Json → Try (Option ℤ)
since tst = if truthy tst then caught (int tst >>= fromtimestamp) else ok none

unfoldable pub extract_lwt_data : Fields → TopicInfo → Try (Option Data)
unfolding truthy
extract_lwt_data message info =
    if not (is_text (value_of message "_type") "lwt")
    then ok none
    else since (value_of message "tst") >>= λ connected_at. ok (
        some (
          ("device", word info.device)
          ∷ ("event", word "offline")
          ∷ ("connected_at", instant_or_absent connected_at)
          ∷ ("disconnected_at", clock_reading)
          ∷ []))

abbrev position : Option Json → Option Json → Data → Data
position (some lat) (some lon) fields =
    put (put fields "latitude" (json lat)) "longitude" (json lon)
position _ _ fields = fields

abbrev transition_fields : Fields → TopicInfo → Option ℤ → Option Data
transition_fields message info none = none
transition_fields message info (some timestamp) = some (
    copy_field (get message "rid") "region_id" (
      copy_field (get message "t") "trigger" (
        copy_field (get message "acc") "accuracy" (
          position (get message "lat") (get message "lon") (
            ("device", word info.device)
            ∷ ("event", json (value_of message "event"))
            ∷ ("description", json (value_of message "desc"))
            ∷ ("timestamp", moment timestamp)
            ∷ [])))))

unfoldable pub extract_transition_data : Fields → TopicInfo → Try (Option Data)
unfolding truthy
extract_transition_data message info =
    if not (is_text (value_of message "_type") "transition")
    then ok none
    else if not (truthy (value_of message "event")) || not (truthy (value_of message "tst"))
    then ok none
    else caught (int (value_of message "tst") >>= fromtimestamp) >>= λ timestamp.
        ok (transition_fields message info timestamp)

abbrev pub value_or : Option Json → Json → Json
value_or none other = other
value_or (some v) other = v

abbrev waypoint_of : Fields → Waypoint
waypoint_of wp = record {
  desc = value_or (get wp "desc") (Json.text "");
  lat = value_of wp "lat";
  lon = value_of wp "lon";
  rad = value_or (get wp "rad") (Json.int (pos 100));
}

-- the list comprehension over `raw_waypoints`
unfoldable pub kept_waypoints : Items → List Waypoint
kept_waypoints Items.nil = []
kept_waypoints (Items.cons (Json.object wp) rest) =
    let kept = kept_waypoints rest in
    if is_null (value_of wp "lat") || is_null (value_of wp "lon")
    then kept
    else waypoint_of wp ∷ kept
kept_waypoints (Items.cons _ rest) = kept_waypoints rest

abbrev waypoint_data : TopicInfo → Json → Option Data
waypoint_data info (Json.array raw) =
    some (("device", word info.device) ∷ ("waypoints", waypoint_list (kept_waypoints raw)) ∷ [])
waypoint_data info _ = none

unfoldable pub extract_waypoint_data : Fields → TopicInfo → Option Data
unfolding kept_waypoints
extract_waypoint_data message info =
    if not (is_text (value_of message "_type") "waypoints")
    then none
    else waypoint_data info (value_or (get message "waypoints") (Json.array Items.nil))
