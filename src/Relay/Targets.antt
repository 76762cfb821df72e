-- ===== src/Relay/Targets.antt =====
-- Who is asked for a location by the relay of app/mqtt/plugin.py.
use my_tracks.Base.{
  ℕ, Bool, false, String, Option, none, some, List, [], ◌∷◌, ◌++◌, true, compared_texts, ◌≡◌, ◌≢◌,
  refl, sym, ap, ◌∙◌, if-cases,
}
use Prim.Native.String.{◌++◌ as text_append}
use mathlib.Core.List.{append-nil, append_assoc}
use my_tracks.Topic.{get_command_topic, parse_device_id}
use my_tracks.Commands.{
  Wire, Sent, no_client, returned, Publication, report_location_command, to_mqtt_payload,
  amqtt_client, internal_broadcast, send_parsed, send_command,
}
use my_tracks.Commands.Sending.{
  Effect, went_out, lost_track, stayed, Silence-not_true, amqtt_client-confirmed,
  send_command-Effect,
}
use my_tracks.Requests.Fanout.{IsReport}
use my_tracks.Relay.{go_on, relay_to}

abbrev pub target_id : String × String → String
target_id (user, device) = text_append user (text_append "/" device)

module _ (broker : Option (ℕ → Bool)) where
  abbrev pub ask : String × String → Wire → Sent × Wire
  ask target wire =
      send_command (amqtt_client broker) (target_id target) report_location_command 0 wire

  -- The calls for the targets, in order, each with the wire that the one before has left: one report
  -- where the publisher returns True, and nothing where it does not.
  pub data Reported : Wire → List (String × String) → List Publication → Wire → Type 0 where
    nil : {before : Wire} → Reported before [] [] before
    skipped :
        (target : String × String) (sent : Sent) (next : Wire) {targets : List (String × String)}
        {ps : List Publication} {before after : Wire}
        → ask target before ≡ (sent, next)
        → sent ≢ returned true
        → next.published ≡ before.published
        → Reported next targets ps after
        → Reported before (target ∷ targets) ps after
    asked :
        (target : String × String) (next : Wire) (p : Publication)
        {targets : List (String × String)} {ps : List Publication} {before after : Wire}
        → ask target before ≡ (returned true, next)
        → IsReport (target_id target) p
        → next.published ≡ before.published ++ p ∷ []
        → Reported next targets ps after
        → Reported before (target ∷ targets) (p ∷ ps) after

  -- The wire after a loop over targets.
  pub record Relayed (targets : List (String × String)) (before after : Wire) : Type 0 where
    pub ps : List Publication
    pub reported : Reported before targets ps after
    pub published : after.published ≡ before.published ++ ps

module _ (wire : Wire) where
  -- Without a broker no call returns True.
  all_skipped : (targets : List (String × String)) → Reported none wire targets [] wire
  unfolding send_command
  all_skipped [] = nil
  all_skipped (target ∷ targets) =
      skipped target no_client wire refl (λ e. cc) refl (all_skipped targets)

module _ (target : String × String) (targets : List (String × String)) (broker : Option (ℕ → Bool))
    (rest : (wire : Wire)
      → Relayed broker targets wire (relay_to (amqtt_client broker) targets wire)) where
  go_on-Relayed :
      (before : Wire) (sent : Sent) (next : Wire)
      → sent ≢ no_client
      → ask broker target before ≡ (sent, next)
      → Effect (amqtt_client broker) (target_id target) report_location_command 0 before sent next
      → Relayed broker
          (target ∷ targets)
          before
          (go_on (sent, next) (relay_to (amqtt_client broker) targets))
  go_on-Relayed before no_client next some_client e effect = absurd (some_client refl)
  go_on-Relayed before (returned b) next some_client e (stayed silence same) =
      let later = rest next in
      record {
        ps = later.ps;
        reported =
            skipped target (returned b) next e (Silence-not_true silence) same later.reported;
        published = later.published ∙ ap (λ l. l ++ later.ps) same;
      }
  go_on-Relayed before (returned false) next some_client e
        (lost_track answers _ _ through _ _ _ _) =
      absurd (amqtt_client-confirmed broker answers through)
  go_on-Relayed before (returned true) next some_client e (went_out name id _ same level out) =
      let later = rest next in
      let p : Publication = record {
        topic = get_command_topic name id;
        payload = to_mqtt_payload report_location_command;
        qos = 0;
      } in
      record {
        ps = p ∷ later.ps;
        reported =
            asked target next p e
              (record { user = name; device = id; id_same = same; level = level; message = refl })
              out later.reported;
        published =
            later.published
            ∙ ap (λ l. l ++ later.ps) out
            ∙ append_assoc before.published (p ∷ []) later.ps;
      }

-- With a broker the publisher has a client.
has_client :
    (accepts : ℕ → Bool) (target : String × String) (before : Wire)
    → (ask (some accepts) target before).0 ≢ no_client
unfolding send_command
has_client accepts target before = parsed (parse_device_id (target_id target))
  where
    parsed :
        (o : Option (String × String))
        → (send_parsed (internal_broadcast accepts) o report_location_command 0 before).0
          ≢ no_client
    parsed none = λ e. cc
    parsed (some (user, device)) =
        if-cases (λ (r : Sent × Wire). r.0 ≢ no_client) (accepts before.calls) (λ _ f. cc)
          (λ _ f. cc)

without_broker :
    (target : String × String) (targets : List (String × String)) (wire : Wire)
    → Relayed none (target ∷ targets) wire (relay_to none (target ∷ targets) wire)
unfolding relay_to send_command
without_broker target targets wire = record {
  ps = [];
  reported = all_skipped wire (target ∷ targets);
  published = sym (append-nil wire.published);
}

pub relay_to-Relayed :
    (broker : Option (ℕ → Bool)) (targets : List (String × String)) (wire : Wire)
    → Relayed broker targets wire (relay_to (amqtt_client broker) targets wire)
unfolding relay_to
relay_to-Relayed broker [] wire = record {
  ps = [];
  reported = nil;
  published = sym (append-nil wire.published);
}
relay_to-Relayed none (target ∷ targets) wire = without_broker target targets wire
relay_to-Relayed (some accepts) ((user, device) ∷ targets) wire =
    go_on-Relayed (user, device) targets (some accepts) (relay_to-Relayed (some accepts) targets)
      wire _ _ (has_client accepts (user, device) wire) refl
      (send_command-Effect (some (internal_broadcast accepts)) (target_id (user, device))
        report_location_command 0 wire)
