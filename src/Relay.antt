-- ===== src/Relay.antt =====
-- A reportLocation command that a device publishes on its own topic, passed on to the other users'
-- devices: app/mqtt/plugin.py (_handle_cmd_from_device).
pub mod Targets
pub mod Rules
use my_tracks.Base.{
  ℕ, String, Option, none, some, List, [], ◌∷◌, Bool, true, false, not, ◌||◌, ◌==◌, compared_texts,
  if◌then◌else◌,
}
use Prim.Native.String.{◌++◌}
use my_tracks.Base.Table.{get}
use my_tracks.Extraction.{Value, Data, json, is_text}
use my_tracks.Commands.{
  Client, amqtt_client, Wire, Sent, no_client, returned, report_location_command, send_command,
}
use my_tracks.Devices.{Device, get_other_devices}
use my_tracks.Devices.Updates.{text_at, either}

-- cmd_data.get("action", "") == "reportLocation"
abbrev pub is_report : Option Value → Bool
is_report (some (json action)) = is_text action "reportLocation"
is_report _ = false

-- A RuntimeError of a publisher without a client leaves the loop; a refusal does not.
abbrev pub go_on : Sent × Wire → (Wire → Wire) → Wire
go_on (no_client, wire) rest = wire
go_on (returned published, wire) rest = rest wire

unfoldable pub relay_to : Option Client → List (String × String) → Wire → Wire
relay_to client [] wire = wire
relay_to client ((mqtt_user, device_id) ∷ others) wire =
    go_on (send_command client (mqtt_user ++ ("/" ++ device_id)) report_location_command 0 wire)
      (relay_to client others)

-- `broker` is `self.context._broker_instance`, amqtt's own broker.
unfoldable pub handle_cmd_from_device : Option (ℕ → Bool) → Data → List Device → Wire → Wire
unfolding relay_to
handle_cmd_from_device broker cmd_data devices wire =
    let requesting_user =
      either (text_at (get cmd_data "tls_cn")) (text_at (get cmd_data "mqtt_user")) in
    if not (is_report (get cmd_data "action"))
      || requesting_user == ""
      || not (text_at (get cmd_data "user") == requesting_user)
    then wire
    else relay_to (amqtt_client broker) (get_other_devices requesting_user devices) wire
