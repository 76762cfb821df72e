-- ===== src/Commands.antt =====
-- Commands to devices and their publication: app/mqtt/commands.py.
pub mod Payload
pub mod Sending
use my_tracks.Base.{
  ℕ, suc, ◌+◌, String, Option, none, some, List, [], ◌∷◌, Bool, true, false, ◌==◌, compared_texts,
  if◌then◌else◌, map, ◌++◌,
}
use my_tracks.Json.{Json, text, array, object, Fields, end, field, update, items_of}
use my_tracks.Topic.{get_command_topic, parse_device_id}

pub data CommandType : Type 0 where
  report_location set_waypoints clear_waypoints set_configuration : CommandType
  dump waypoints restart action : CommandType

unfoldable pub value : CommandType → String
value report_location = "reportLocation"
value set_waypoints = "setWaypoints"
value clear_waypoints = "clearWaypoints"
value set_configuration = "setConfiguration"
value dump = "dump"
value waypoints = "waypoints"
value restart = "restart"
value action = "action"

pub record Command : Type 0 where
  pub command_type : CommandType
  pub payload : Fields

-- The message that `json.dumps` prints.
unfoldable pub to_mqtt_payload : Command → Fields
unfolding value
to_mqtt_payload command =
    update (field "_type" (text "cmd") (field "action" (text (value command.command_type)) end))
      command.payload

abbrev plain : CommandType → Command
plain t = record { command_type = t; payload = end }

abbrev typed_waypoint : Fields → Json
typed_waypoint wp = object (update (field "_type" (text "waypoint") end) wp)

unfoldable pub report_location_command : Command
report_location_command = plain report_location

unfoldable pub set_waypoints_command : List Fields → Command
set_waypoints_command wps =
    let typed = array (items_of (map typed_waypoint wps)) in
    let wrapper = field "_type" (text "waypoints") (field "waypoints" typed end) in
    record { command_type = set_waypoints; payload = field "waypoints" (object wrapper) end }

unfoldable pub clear_waypoints_command : Command
clear_waypoints_command = plain clear_waypoints

unfoldable pub set_configuration_command : Fields → Command
set_configuration_command config = record {
  command_type = set_configuration;
  payload = field "configuration" (object config) end;
}

unfoldable pub dump_command : Command
dump_command = plain dump

unfoldable pub request_waypoints_command : Command
request_waypoints_command = plain waypoints

-- `if params:` is false for None and for an empty dictionary
abbrev with_params : Option Fields → Fields
with_params none = end
with_params (some end) = end
with_params (some params) = field "params" (object params) end

unfoldable pub action_command : String → Option Fields → Command
action_command action_name params = record {
  command_type = action;
  payload = field "name" (text action_name) (with_params params);
}

-- What a call of `publish` comes to: it raises, or it publishes and nothing raises behind it, or it
-- publishes and its result's `wait_for_publish` raises.
pub data Publishing : Type 0 where
  refused taken unconfirmed : Publishing

-- By the method that the client has, with what its calls come to, in order. A broker's
-- internal_message_broadcast that raises has published nothing.
pub data Client : Type 0 where
  internal_broadcast : (ℕ → Bool) → Client
  publisher : (ℕ → Publishing) → Client
  unknown : Client

pub record Publication : Type 0 where
  pub topic : String
  pub payload : Fields
  pub qos : ℕ

-- What has gone out so far, and how many calls were made.
pub record Wire : Type 0 where
  pub published : List Publication
  pub calls : ℕ

-- `no_client` is RuntimeError("No MQTT client configured").
pub data Sent : Type 0 where
  no_client : Sent
  returned : Bool → Sent

abbrev pub sent_out : Bool → Publication → Wire → Sent × Wire
sent_out result p wire =
    (returned result, record { published = wire.published ++ p ∷ []; calls = wire.calls + 1 })

abbrev pub raised_call : Wire → Sent × Wire
raised_call wire = (returned false, record wire { calls = wire.calls + 1 })

abbrev pub publish_as : Publishing → Publication → Wire → Sent × Wire
publish_as refused p wire = raised_call wire
publish_as taken p wire = sent_out true p wire
publish_as unconfirmed p wire = sent_out false p wire

-- the `try` block
abbrev pub publish_by : Client → Publication → Wire → Sent × Wire
publish_by (internal_broadcast accepts) p wire =
    if accepts wire.calls then sent_out true p wire else raised_call wire
publish_by (publisher answers) p wire = publish_as (answers wire.calls) p wire
publish_by unknown p wire = (returned false, wire)

-- CommandPublisher(mqtt_client=broker), for amqtt's broker
abbrev pub amqtt_client : Option (ℕ → Bool) → Option Client
amqtt_client none = none
amqtt_client (some accepts) = some (internal_broadcast accepts)

abbrev pub send_parsed : Client → Option (String × String) → Command → ℕ → Wire → Sent × Wire
send_parsed client none command qos wire = (returned false, wire)
send_parsed client (some (mqtt_user, device)) command qos wire =
    publish_by client
      (record {
        topic = get_command_topic mqtt_user device;
        payload = to_mqtt_payload command;
        qos = qos;
      })
      wire

unfoldable pub send_command : Option Client → String → Command → ℕ → Wire → Sent × Wire
send_command none device_id command qos wire = (no_client, wire)
send_command (some client) device_id command qos wire =
    send_parsed client (parse_device_id device_id) command qos wire

-- the three shorthands of CommandPublisher, all with the default QoS 0
unfoldable pub request_location : Option Client → String → Wire → Sent × Wire
request_location client device_id = send_command client device_id report_location_command 0

unfoldable pub send_set_waypoints : Option Client → String → List Fields → Wire → Sent × Wire
send_set_waypoints client device_id wps =
    send_command client device_id (set_waypoints_command wps) 0

unfoldable pub send_clear_waypoints : Option Client → String → Wire → Sent × Wire
send_clear_waypoints client device_id = send_command client device_id clear_waypoints_command 0
