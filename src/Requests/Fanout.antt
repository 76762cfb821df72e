-- ===== src/Requests/Fanout.antt =====
-- The publications of a location request: one for each device, in order, up to the first that fails.
use Prim.Native.String.{◌++◌ as text_append}
use mathlib.Core.List.{append-nil, append_assoc}
use my_tracks.Base.{
  ℕ, Option, none, some, if-cases, String, List, [], ◌∷◌, ◌++◌, true, false, ◌≡◌, ◌≢◌, refl, arith,
  ap, sym, ◌∙◌,
}
use my_tracks.Text.{IsLevel}
use my_tracks.Topic.{get_command_topic}
use my_tracks.Commands.{
  to_mqtt_payload, report_location_command, request_location, Publication, Sent, no_client,
  returned, Wire, Publishing, publisher,
}
use my_tracks.Commands.Sending.{
  Effect, went_out, lost_track, stayed, Silence-not_true, amqtt_client-confirmed,
  send_command-Effect,
}
use my_tracks.Requests.{
  command_publisher, answer, publish_report_location, publish_each, save_device_stamps,
}
use my_tracks.Requests.Settings.{Config, record_device_location_request}
use my_tracks.Requests.Effects.{
  World, Broker, RequestError, Outcome, ok, raised, and_then, ◌>>=◌, ◌>>◌, now,
}

-- A reportLocation command to the device that a device id names.
pub record IsReport (id : String) (p : Publication) : Type 0 where
  pub user : String
  pub device : String
  pub id_same : id ≡ text_append user (text_append "/" device)
  pub level : IsLevel user
  pub message : p ≡ record {
    topic = get_command_topic user device;
    payload = to_mqtt_payload report_location_command;
    qos = 0;
  }

pub data Reports : List String → List Publication → Type 0 where
  nil : Reports [] []
  cons :
      {id : String} {p : Publication} {ids : List String} {ps : List Publication}
      → IsReport id p
      → Reports ids ps
      → Reports (id ∷ ids) (p ∷ ps)

-- What stays as it was while a request publishes.
pub record SameBooks (w w' : World) : Type 0 where
  pub by_user : w'.row.last_by_user ≡ w.row.last_by_user
  pub user_cooldown : w'.row.user_cooldown ≡ w.row.user_cooldown
  pub device_cooldown : w'.row.device_cooldown ≡ w.row.device_cooldown
  pub clock : w'.clock ≡ w.clock
  pub broker : w'.broker ≡ w.broker

SameBooks-trans : {a b c : World} → SameBooks a b → SameBooks b c → SameBooks a c
SameBooks-trans p q = ground arith

-- One publication.
pub data Published (id : String) (w : World) : Outcome (Unit {0}) → World → Type 0 where
  sent :
      {w' : World} (p : Publication)
      → SameBooks w w'
      → IsReport id p
      → w'.wire.published ≡ w.wire.published ++ p ∷ []
      → w'.row ≡ w.row
      → Published id w (ok tt) w'
  failed :
      {w' : World} (e : RequestError)
      → SameBooks w w'
      → e.status_code ≡ 503
      → w'.wire.published ≡ w.wire.published
      → w'.row ≡ w.row
      → Published id w (raised e) w'

command_publisher-confirmed :
    (broker : Option Broker) (answers : ℕ → Publishing)
    → command_publisher broker ≢ some (publisher answers)
unfolding command_publisher
command_publisher-confirmed none answers e = cc
command_publisher-confirmed (some broker) answers e =
    if-cases (λ c. c ≢ some (publisher answers)) broker.is_running
      (λ _. amqtt_client-confirmed broker.amqtt_broker answers) (λ _ f. cc) e

module _ (id : String) (w : World) where
  abbrev with_wire : Wire → World
  with_wire wire = record w { wire = wire }

  answer-Published :
      (sent : Sent) (wire : Wire)
      → Effect (command_publisher w.broker) id report_location_command 0 w.wire sent wire
      → Published id w (answer sent (with_wire wire)).0 (answer sent (with_wire wire)).1
  answer-Published no_client wire (stayed _ same) = failed _ (ground arith) refl same refl
  answer-Published (returned false) wire (lost_track answers _ _ through _ _ _ _) =
      absurd (command_publisher-confirmed w.broker answers through)
  answer-Published (returned false) wire (stayed _ same) = failed _ (ground arith) refl same refl
  answer-Published (returned true) wire (stayed silence same) =
      absurd (Silence-not_true silence refl)
  answer-Published (returned true) wire (went_out user device _ same_id level same) =
      sent _ (ground arith)
        (record { user = user; device = device; id_same = same_id; level = level; message = refl })
        same refl

  pub publish_report_location-Published :
      Published id w (publish_report_location id w).0 (publish_report_location id w).1
  unfolding publish_report_location request_location
  publish_report_location-Published =
      answer-Published _ _
        (send_command-Effect (command_publisher w.broker) id report_location_command 0 w.wire)

-- The whole loop, over `ids`.
pub data Fanout (ids : List String) (w : World) : Outcome Config → World → Type 0 where
  all_sent :
      {w' : World} (c : Config) (ps : List Publication)
      → SameBooks w w'
      → Reports ids ps
      → w'.wire.published ≡ w.wire.published ++ ps
      → Fanout ids w (ok c) w'
  cut_short :
      {w' : World} (e : RequestError) (done : List String) (left : List String)
      (ps : List Publication)
      → SameBooks w w'
      → e.status_code ≡ 503
      → ids ≡ done ++ left
      → left ≢ []
      → Reports done ps
      → w'.wire.published ≡ w.wire.published ++ ps
      → Fanout ids w (raised e) w'

module _ {id : String} {w : World} (p : Publication) (r : IsReport id p) (w₂ : World)
    (books : SameBooks w w₂) (out_p : w₂.wire.published ≡ w.wire.published ++ p ∷ []) where
  joined : (ps : List Publication) → w₂.wire.published ++ ps ≡ w.wire.published ++ (p ∷ ps)
  joined ps = ap (λ l. l ++ ps) out_p ∙ append_assoc w.wire.published (p ∷ []) ps

  Fanout-cons :
      {ids : List String} {out : Outcome Config} {w' : World}
      → Fanout ids w₂ out w'
      → Fanout (id ∷ ids) w out w'
  Fanout-cons (all_sent c ps same reports out_ps) =
      all_sent c (p ∷ ps) (SameBooks-trans books same) (cons r reports) (out_ps ∙ joined ps)
  Fanout-cons (cut_short e done left ps same status split more reports out_ps) =
      cut_short e (id ∷ done) left (p ∷ ps) (SameBooks-trans books same) status
        (ap (λ l. id ∷ l) split) more (cons r reports) (out_ps ∙ joined ps)

module _ (config : Config) (id : String) (ids : List String)
    (rest : (c : Config) (w : World)
      → Fanout ids w (publish_each c ids w).0 (publish_each c ids w).1) where
  abbrev onward : Unit {0} → World → Outcome Config × World
  onward _ = do
    t ← now
    let changed = record_device_location_request config id t
    save_device_stamps changed
    publish_each changed ids

  onward-Fanout :
      (w : World) (out : Outcome (Unit {0})) (w₁ : World)
      → Published id w out w₁
      → Fanout (id ∷ ids) w (and_then onward (out, w₁)).0 (and_then onward (out, w₁)).1
  onward-Fanout w (ok _) w₁ (sent p books r out_p row) =
      Fanout-cons p r _ (ground arith) out_p (rest _ _)
  onward-Fanout w (raised e) w₁ (failed _ books status out_p row) =
      cut_short e [] (id ∷ ids) [] books status refl (cc) Reports.nil (out_p ∙ sym (append-nil _))

pub publish_each-Fanout :
    (config : Config) (ids : List String) (w : World)
    → Fanout ids w (publish_each config ids w).0 (publish_each config ids w).1
unfolding publish_each
publish_each-Fanout config [] w = all_sent config [] (ground arith) Reports.nil (sym (append-nil _))
publish_each-Fanout config (id ∷ ids) w =
    onward-Fanout config id ids (λ c v. publish_each-Fanout c ids v) w _ _
      (publish_report_location-Published id w)
