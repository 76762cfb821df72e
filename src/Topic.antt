-- ===== src/Topic.antt =====
-- MQTT topics and device ids: app/mqtt/handlers.py (parse_owntracks_topic) and
-- app/mqtt/commands.py (get_command_topic, parse_device_id).
pub mod Parsing
use Prim.Native.String.{◌++◌}
use my_tracks.Base.{
  String, Option, none, some, List, [], ◌∷◌, Bool, ◌==◌, compared_texts, if◌then◌else◌, not,
}
use my_tracks.Text.{split_slash, join_slash, span_slash}

-- The dictionary that `parse_owntracks_topic` returns; "subtopic" is a key that may be missing.
pub record TopicInfo : Type 0 where
  pub user : String
  pub device : String
  pub subtopic : Option String

abbrev pub subtopic_of : List String → Option String
subtopic_of [] = none
subtopic_of (p ∷ ps) = some (join_slash (p ∷ ps))

-- the test on `len(parts)` is the patterns
abbrev pub topic_of_parts : List String → Option TopicInfo
topic_of_parts (root ∷ user ∷ device ∷ rest) =
    if root == "owntracks"
    then some (record { user = user; device = device; subtopic = subtopic_of rest })
    else none
topic_of_parts _ = none

unfoldable pub parse_owntracks_topic : String → Option TopicInfo
parse_owntracks_topic topic = topic_of_parts (split_slash topic)

unfoldable pub get_command_topic : String → String → String
get_command_topic user device = "owntracks/" ++ (user ++ ("/" ++ (device ++ "/cmd")))

-- split("/", 1) has two parts exactly when there is a slash
abbrev device_id_of : String × Option String → Option (String × String)
device_id_of (user, none) = none
device_id_of (user, some device) = some (user, device)

unfoldable pub parse_device_id : String → Option (String × String)
parse_device_id device_id = device_id_of (span_slash device_id)
