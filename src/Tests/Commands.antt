-- ===== src/Tests/Commands.antt =====
-- A command on the wire, and its publication by a client that takes every call.
use my_tracks.Base.{some, []}
use my_tracks.Json.{text, field, end}
use my_tracks.Commands.{
  Command, action_command, report_location_command, Client, publisher, taken, Wire, send_command,
}
use my_tracks.Commands.Sending.{Effect, send_command-Effect}

abbrev play : Command
play = action_command "play" (some (field "volume" (text "loud") end))

abbrev client : Client
client = publisher (λ n. taken)

abbrev quiet : Wire
quiet = record { published = []; calls = 0 }

send_command-Effect_example :
    Effect
      (some client)
      "alice/phone"
      report_location_command
      0
      quiet
      (send_command (some client) "alice/phone" report_location_command 0 quiet).0
      (send_command (some client) "alice/phone" report_location_command 0 quiet).1
send_command-Effect_example =
    send_command-Effect (some client) "alice/phone" report_location_command 0 quiet
