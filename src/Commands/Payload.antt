-- ===== src/Commands/Payload.antt =====
-- What a command looks like on the wire: OwnTracks payloads of app/mqtt/commands.py.
use my_tracks.Base.{
  String, Option, none, some, List, ◌==◌, compared_texts, if◌then◌else◌, ◌≡◌, refl, arith, eq_iff,
  ◌∙◌,
}
use my_tracks.Json.{Json, text, Fields, end, field, get, set, update, get-set}
use my_tracks.Commands.{
  value, Command, to_mqtt_payload, report_location_command, set_waypoints_command,
  clear_waypoints_command, set_configuration_command, dump_command, request_waypoints_command,
  action_command,
}

-- A dictionary holds each key once.
abbrev pub IsDict : Fields → Type 0
IsDict end = Unit
IsDict (field k v rest) = (get rest k ≡ none) × IsDict rest

abbrev or_else : Option Json → Option Json → Option Json
or_else none other = other
or_else (some v) other = some v

get-update :
    (message other : Fields) (key : String)
    → IsDict other
    → get (update message other) key ≡ or_else (get other key) (get message key)
unfolding get update
get-update message end key h = refl
get-update message (field k v rest) key (unique, h) =
    ground (arith, get-update (set message k v) rest key h, get-set message k key v, eq_iff k key)

-- What a key of the command's message holds: the payload's value, or else the type `cmd` and the
-- action's name, or else nothing.
abbrev pub wire_field : Command → String → Option Json
wire_field c key = or_else (get c.payload key) (
    if key == "_type"
    then some (text "cmd")
    else if key == "action"
    then some (text (value c.command_type))
    else none)

pub get-to_mqtt_payload :
    (c : Command) (key : String) → IsDict c.payload → get (to_mqtt_payload c) key ≡ wire_field c key
unfolding to_mqtt_payload get
get-to_mqtt_payload c key h = ground (
  arith,
  get-update (field "_type" (text "cmd") (field "action" (text (value c.command_type)) end))
      c.payload key h,
  eq_iff "_type" key,
  eq_iff "action" key,
  eq_iff key "_type",
  eq_iff key "action",
)

-- The commands that the class methods build.
pub data IsBuilt : Command → Type 0 where
  a_report_location : IsBuilt report_location_command
  a_set_waypoints : (wps : List Fields) → IsBuilt (set_waypoints_command wps)
  a_clear_waypoints : IsBuilt clear_waypoints_command
  a_set_configuration : (config : Fields) → IsBuilt (set_configuration_command config)
  a_dump : IsBuilt dump_command
  a_request_waypoints : IsBuilt request_waypoints_command
  an_action : (name : String) (params : Option Fields) → IsBuilt (action_command name params)

abbrev builders : Unit {0}
unfolding report_location_command set_waypoints_command clear_waypoints_command
    set_configuration_command dump_command request_waypoints_command action_command get
builders = tt

-- Its payload has each key once, and neither of the two keys of the message itself.
record IsPlain (c : Command) : Type 0 where
  dict : IsDict c.payload
  no_type : get c.payload "_type" ≡ none
  no_action : get c.payload "action" ≡ none

IsBuilt-IsPlain : {c : Command} → IsBuilt c → IsPlain c
unfolding builders
IsBuilt-IsPlain a_report_location = record { dict = tt; no_type = refl; no_action = refl }
IsBuilt-IsPlain (a_set_waypoints wps) = record {
  dict = (refl, tt);
  no_type = refl;
  no_action = refl;
}
IsBuilt-IsPlain a_clear_waypoints = record { dict = tt; no_type = refl; no_action = refl }
IsBuilt-IsPlain (a_set_configuration config) = record {
  dict = (refl, tt);
  no_type = refl;
  no_action = refl;
}
IsBuilt-IsPlain a_dump = record { dict = tt; no_type = refl; no_action = refl }
IsBuilt-IsPlain a_request_waypoints = record { dict = tt; no_type = refl; no_action = refl }
IsBuilt-IsPlain (an_action name none) = record {
  dict = (refl, tt);
  no_type = refl;
  no_action = refl;
}
IsBuilt-IsPlain (an_action name (some end)) = record {
  dict = (refl, tt);
  no_type = refl;
  no_action = refl;
}
IsBuilt-IsPlain (an_action name (some (field k v rest))) = record {
  dict = (refl, (refl, tt));
  no_type = refl;
  no_action = refl;
}

-- Every command that a class method builds goes out with the type `cmd` and its own action, and with
-- all of its payload under the payload's keys.
pub get-to_mqtt_payload_of_IsBuilt :
    (c : Command)
    → IsBuilt c
    → (get (to_mqtt_payload c) "_type" ≡ some (text "cmd"))
      × (get (to_mqtt_payload c) "action" ≡ some (text (value c.command_type)))
      × ((key : String) (v : Json)
          → get c.payload key ≡ some v
          → get (to_mqtt_payload c) key ≡ some v)
get-to_mqtt_payload_of_IsBuilt c b =
    let p = IsBuilt-IsPlain b in
    (
      get-to_mqtt_payload c "_type" p.dict ∙ rw p.no_type refl,
      get-to_mqtt_payload c "action" p.dict ∙ rw p.no_action refl,
      λ key v held. get-to_mqtt_payload c key p.dict ∙ rw held refl,
    )
