-- ===== src/Handlers.antt =====
-- OwnTracks messages and their callbacks: app/mqtt/handlers.py (parse_owntracks_message and
-- OwnTracksMessageHandler). A callback is the number of a registered function; `raises` says which of
-- its calls raise an exception. What a function does is the list of the calls that it makes, with the
-- exceptions that it logs, and whether it raises itself.
pub mod Kinds
pub mod Dispatch
pub mod Escapes
use my_tracks.Base.{
  ℕ, String, Option, none, some, List, [], ◌∷◌, ◌++◌, Bool, true, false, not, ◌==◌, compared_texts,
  if◌then◌else◌,
}
use my_tracks.Base.Table.{put}
use my_tracks.Json.{Json, Fields, get}
use my_tracks.Numbers.{PyError, Try, ok, raised}
use my_tracks.Topic.{TopicInfo, parse_owntracks_topic}
use my_tracks.Extraction.{
  Data, json, word, value_of, value_or, is_text, extract_location_data, extract_lwt_data,
  extract_transition_data, extract_waypoint_data,
}

-- What `json.loads(payload.decode("utf-8"))` does: a value, an error of JSON or of UTF-8, or another
-- exception (an integer of too many digits is a ValueError).
pub data Loaded : Type 0 where
  loaded : Json → Loaded
  undecodable : Loaded
  failed : PyError → Loaded

abbrev message_of : Loaded → Try (Option Fields)
message_of (loaded (Json.object message)) = ok (some message)
message_of (loaded _) = ok none
message_of undecodable = ok none
message_of (failed e) = raised e

unfoldable pub parse_owntracks_message : (List ℕ → Loaded) → Option (List ℕ) → Try (Option Fields)
parse_owntracks_message loads none = ok none
parse_owntracks_message loads (some payload) = message_of (loads payload)

pub record Handler : Type 0 where
  pub location_callbacks : List ℕ
  pub lwt_callbacks : List ℕ
  pub transition_callbacks : List ℕ
  pub waypoint_callbacks : List ℕ
  pub cmd_callbacks : List ℕ

unfoldable pub init : Handler
init = record {
  location_callbacks = [];
  lwt_callbacks = [];
  transition_callbacks = [];
  waypoint_callbacks = [];
  cmd_callbacks = [];
}

unfoldable pub on_location : ℕ → Handler → Handler
on_location callback h = record h { location_callbacks = h.location_callbacks ++ callback ∷ [] }

unfoldable pub on_lwt : ℕ → Handler → Handler
on_lwt callback h = record h { lwt_callbacks = h.lwt_callbacks ++ callback ∷ [] }

unfoldable pub on_transition : ℕ → Handler → Handler
on_transition callback h = record h {
  transition_callbacks = h.transition_callbacks ++ callback ∷ [];
}

unfoldable pub on_waypoint : ℕ → Handler → Handler
on_waypoint callback h = record h { waypoint_callbacks = h.waypoint_callbacks ++ callback ∷ [] }

unfoldable pub on_cmd : ℕ → Handler → Handler
on_cmd callback h = record h { cmd_callbacks = h.cmd_callbacks ++ callback ∷ [] }

-- A call of a callback, and an exception of one that is logged.
pub data Event : Type 0 where
  called : ℕ → Data → Event
  logged : ℕ → Event

abbrev pub Handled : Type 0
Handled = List Event × Try (Unit {0})

-- What the broker tells of the publisher.
pub record Origin : Type 0 where
  pub client_ip : Option String
  pub transport : String
  pub tls_identity : String
  pub tls_cn : String

-- if text: data[name] = text
abbrev pub put_word : String → String → Data → Data
put_word name s d = if not (s == "") then put d name (word s) else d

abbrev pub put_address : Option String → Data → Data
put_address none d = d
put_address (some ip) d = put_word "client_ip" ip d

-- What a handler adds to the data that it extracts, by the user of the topic.
abbrev pub location_extras : Origin → String → Data → Data
location_extras origin mqtt_user d =
    put
      (put
        (put_word "tls_cn" origin.tls_cn
          (put_word "mqtt_user" mqtt_user (put_address origin.client_ip d)))
        "transport" (word origin.transport))
      "tls_identity" (word origin.tls_identity)

abbrev pub plain_extras : Origin → String → Data → Data
plain_extras origin mqtt_user d =
    put_word "mqtt_user" mqtt_user (put d "transport" (word origin.transport))

abbrev pub transition_extras : Origin → String → Data → Data
transition_extras origin mqtt_user d =
    put_word "mqtt_user" mqtt_user
      (put (put d "transport" (word origin.transport)) "tls_identity" (word origin.tls_identity))

abbrev pub cmd_data : Fields → TopicInfo → String → Origin → String → Data
cmd_data message info topic origin mqtt_user =
    ("action", json (value_or (get message "action") (Json.text "")))
    ∷ ("user", word info.user)
    ∷ ("device", word info.device)
    ∷ ("topic", word topic)
    ∷ ("message", json (Json.object message))
    ∷ ("transport", word origin.transport)
    ∷ ("mqtt_user", word mqtt_user)
    ∷ ("tls_cn", word origin.tls_cn)
    ∷ []

module _ (raises : ℕ → Data → Bool) where
  -- the loop over the callbacks, with its `except Exception`
  unfoldable pub run_callbacks : List ℕ → Data → List Event
  run_callbacks [] d = []
  run_callbacks (c ∷ cs) d =
      called c d ∷ ((if raises c d then logged c ∷ [] else []) ++ run_callbacks cs d)

  abbrev pub deliver : List ℕ → (Data → Data) → Try (Option Data) → Handled
  deliver callbacks extend (ok none) = ([], ok tt)
  deliver callbacks extend (ok (some d)) = (run_callbacks callbacks (extend d), ok tt)
  deliver callbacks extend (raised e) = ([], raised e)

  unfoldable pub handle_location : Handler → Fields → TopicInfo → Origin → String → Handled
  handle_location h message info origin mqtt_user =
      deliver h.location_callbacks (location_extras origin mqtt_user)
        (extract_location_data message info)

  unfoldable pub handle_lwt : Handler → Fields → TopicInfo → Origin → String → Handled
  handle_lwt h message info origin mqtt_user =
      deliver h.lwt_callbacks (plain_extras origin mqtt_user) (extract_lwt_data message info)

  unfoldable pub handle_transition : Handler → Fields → TopicInfo → Origin → String → Handled
  handle_transition h message info origin mqtt_user =
      deliver h.transition_callbacks (transition_extras origin mqtt_user)
        (extract_transition_data message info)

  unfoldable pub handle_cmd : Handler → Fields → TopicInfo → String → Origin → String → Handled
  handle_cmd h message info topic origin mqtt_user =
      (run_callbacks h.cmd_callbacks (cmd_data message info topic origin mqtt_user), ok tt)

  unfoldable pub handle_waypoints : Handler → Fields → TopicInfo → Origin → String → Handled
  handle_waypoints h message info origin mqtt_user =
      deliver h.waypoint_callbacks (plain_extras origin mqtt_user)
        (ok (extract_waypoint_data message info))

  -- the tests on `msg_type`
  unfoldable pub route : Handler → Fields → TopicInfo → String → Origin → Json → Handled
  route h message info topic origin msg_type =
      if is_text msg_type "location"
      then handle_location h message info origin info.user
      else if is_text msg_type "lwt"
      then handle_lwt h message info origin info.user
      else if is_text msg_type "transition"
      then handle_transition h message info origin info.user
      else if is_text msg_type "waypoints"
      then handle_waypoints h message info origin info.user
      else if is_text msg_type "cmd"
      then handle_cmd h message info topic origin info.user
      else ([], ok tt)

  -- `if not message`: None, or a dictionary with no entry
  abbrev pub routed : Handler → TopicInfo → String → Origin → Try (Option Fields) → Handled
  routed h info topic origin (raised e) = ([], raised e)
  routed h info topic origin (ok none) = ([], ok tt)
  routed h info topic origin (ok (some Fields.end)) = ([], ok tt)
  routed h info topic origin (ok (some (Fields.field k v rest))) =
      route h (Fields.field k v rest) info topic origin (value_of (Fields.field k v rest) "_type")

  abbrev pub received :
      (List ℕ → Loaded) → Handler → String → Option (List ℕ) → Origin → Option TopicInfo → Handled
  received loads h topic payload origin none = ([], ok tt)
  received loads h topic payload origin (some info) =
      routed h info topic origin (parse_owntracks_message loads payload)

  unfoldable pub handle_message :
      (List ℕ → Loaded) → Handler → String → Option (List ℕ) → Origin → Handled
  unfolding route
  handle_message loads h topic payload origin =
      received loads h topic payload origin (parse_owntracks_topic topic)
