-- ===== src/Commands/Sending.antt =====
-- When a command is published: CommandPublisher.send_command of app/mqtt/commands.py.
use Prim.Native.String.{◌++◌ as text_append}
use mathlib.Core.Option.{some-injective}
use my_tracks.Base.{
  ℕ, Bool, false, if-cases, String, Option, none, some, [], ◌∷◌, ◌++◌, true, compared_texts, ◌≡◌,
  ◌≢◌, refl, Option-cases, inl, inr,
}
use my_tracks.Topic.{get_command_topic, parse_device_id}
use my_tracks.Text.{IsLevel}
use my_tracks.Topic.Parsing.{parse_device_id_cut}
use my_tracks.Commands.{
  no_client, Publishing, refused, taken, unconfirmed, publish_as, amqtt_client, Command,
  to_mqtt_payload, internal_broadcast, publisher, unknown, Client, Publication, Wire, Sent,
  returned, send_command, publish_by,
}

-- The client takes its call number `call`, and nothing raises behind it.
pub data Confirms (client : Option Client) (call : ℕ) : Type 0 where
  broadcast :
      (accepts : ℕ → Bool)
      → client ≡ some (internal_broadcast accepts)
      → accepts call ≡ true
      → Confirms client call
  published :
      (answers : ℕ → Publishing)
      → client ≡ some (publisher answers)
      → answers call ≡ taken
      → Confirms client call

-- Why nothing is published, and what then comes of a call.
pub data Silence (client : Option Client) (device_id : String) (call : ℕ) : Sent → Type 0 where
  without_client : client ≡ none → Silence client device_id call no_client
  unnamed :
      ((user device : String)
        → device_id ≡ text_append user (text_append "/" device)
        → IsLevel user
        → ⊥)
      → Silence client device_id call (returned false)
  broadcast_raised :
      (accepts : ℕ → Bool)
      → client ≡ some (internal_broadcast accepts)
      → accepts call ≡ false
      → Silence client device_id call (returned false)
  publish_raised :
      (answers : ℕ → Publishing)
      → client ≡ some (publisher answers)
      → answers call ≡ refused
      → Silence client device_id call (returned false)
  no_method : client ≡ some unknown → Silence client device_id call (returned false)

pub Silence-not_true :
    {client : Option Client} {device_id : String} {call : ℕ} {sent : Sent}
    → Silence client device_id call sent
    → sent ≢ returned true
Silence-not_true (without_client _) e = cc
Silence-not_true (unnamed _) e = cc
Silence-not_true (broadcast_raised _ _ _) e = cc
Silence-not_true (publish_raised _ _ _) e = cc
Silence-not_true (no_method _) e = cc

abbrev pub message : String → String → Command → ℕ → Publication
message user device command qos = record {
  topic = get_command_topic user device;
  payload = to_mqtt_payload command;
  qos = qos;
}

-- What one call of `send_command` does to the wire.
pub data Effect (client : Option Client) (device_id : String) (command : Command) (qos : ℕ)
    (before : Wire) : Sent → Wire → Type 0 where
  went_out :
      (user device : String) {after : Wire}
      → Confirms client before.calls
      → device_id ≡ text_append user (text_append "/" device)
      → IsLevel user
      → after.published ≡ before.published ++ message user device command qos ∷ []
      → Effect client device_id command qos before (returned true) after
  lost_track :
      (answers : ℕ → Publishing) (user device : String) {after : Wire}
      → client ≡ some (publisher answers)
      → answers before.calls ≡ unconfirmed
      → device_id ≡ text_append user (text_append "/" device)
      → IsLevel user
      → after.published ≡ before.published ++ message user device command qos ∷ []
      → Effect client device_id command qos before (returned false) after
  stayed :
      {sent : Sent} {after : Wire}
      → Silence client device_id before.calls sent
      → after.published ≡ before.published
      → Effect client device_id command qos before sent after

module _ (device_id user device : String) (command : Command) (qos : ℕ) (wire : Wire)
    (same : device_id ≡ text_append user (text_append "/" device)) (level : IsLevel user) where
  abbrev EffectOf : Client → Sent × Wire → Type 0
  EffectOf client result = Effect (some client) device_id command qos wire result.0 result.1

  publish_as-Effect :
      (answers : ℕ → Publishing) (answer : Publishing)
      → answers wire.calls ≡ answer
      → EffectOf (publisher answers) (publish_as answer (message user device command qos) wire)
  publish_as-Effect answers refused e = stayed (publish_raised answers refl e) refl
  publish_as-Effect answers taken e =
      went_out user device (published answers refl e) same level refl
  publish_as-Effect answers unconfirmed e = lost_track answers user device refl e same level refl

  publish_by-Effect :
      (client : Client) → EffectOf client (publish_by client (message user device command qos) wire)
  publish_by-Effect (internal_broadcast accepts) =
      if-cases (EffectOf (internal_broadcast accepts)) (accepts wire.calls)
        (λ e. went_out user device (broadcast accepts refl e) same level refl)
        (λ e. stayed (broadcast_raised accepts refl e) refl)
  publish_by-Effect (publisher answers) = publish_as-Effect answers (answers wire.calls) refl
  publish_by-Effect unknown = stayed (no_method refl) refl

-- A call of `send_command` ends in one of three ways. It returns True, and the command is published, once,
-- as the last publication, on the command topic of the user and the device that the device id names before
-- and after its first slash: so it is where the client takes the call and confirms it. Or it returns False
-- although the command is published in the same way: so it is where the client publishes it and
-- `wait_for_publish` raises. Or nothing is published: there is no client, which raises a RuntimeError, or
-- it returns False, because the device id names no user and device, because the client's method raises, or
-- because the client has none.
pub send_command-Effect :
    (client : Option Client) (device_id : String) (command : Command) (qos : ℕ) (wire : Wire)
    → Effect client device_id command qos wire
        (send_command client device_id command qos wire).0
        (send_command client device_id command qos wire).1
unfolding send_command
send_command-Effect none device_id command qos wire = stayed (without_client refl) refl
send_command-Effect (some client) device_id command qos wire =
    elim (Option-cases (parse_device_id device_id)) [
      | inl refused_id ↦ rw refused_id (
          stayed
            (unnamed (λ user device same level.
              let named = (parse_device_id_cut device_id user device).1 (same, level) in cc))
            refl)
      | inr ((user, device), parsed) ↦
          let (same, level) = (parse_device_id_cut device_id user device).0 parsed in
          rw parsed (publish_by-Effect device_id user device command qos wire same level client)
    ]

-- Through amqtt's broker no command is published with an answer other than True.
pub amqtt_client-confirmed :
    (broker : Option (ℕ → Bool)) (answers : ℕ → Publishing)
    → amqtt_client broker ≢ some (publisher answers)
amqtt_client-confirmed none answers e = cc
amqtt_client-confirmed (some accepts) answers e =
    let same : internal_broadcast accepts ≡ publisher answers = some-injective _ _ e in cc
