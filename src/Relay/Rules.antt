-- ===== src/Relay/Rules.antt =====
-- When the relay of app/mqtt/plugin.py asks, and whom.
use my_tracks.Base.{
  ℕ, String, Option, List, [], ◌∷◌, ◌++◌, Bool, true, false, not, ◌||◌, ◌==◌, compared_texts,
  if◌then◌else◌, ◌≡◌, ◌≢◌, refl, eq_iff, Bool-cases, inl, inr, ◌⊎◌,
}
use my_tracks.Base.Table.{get}
use my_tracks.Extraction.{Data}
use my_tracks.Commands.{amqtt_client, Wire, Publication}
use my_tracks.Devices.{Device, get_other_devices}
use my_tracks.Devices.Updates.{text_at, either}
use my_tracks.Relay.{is_report, relay_to, handle_cmd_from_device}
use my_tracks.Relay.Targets.{Reported, relay_to-Relayed}

-- The devices of the users who are named and are not the one who asks, in the table's order.
pub data Others (requester : String) : List Device → List (String × String) → Type 0 where
  nil : Others requester [] []
  taken :
      (d : Device) {devices : List Device} {targets : List (String × String)}
      → d.mqtt_user ≢ requester
      → d.mqtt_user ≢ ""
      → Others requester devices targets
      → Others requester (d ∷ devices) ((d.mqtt_user, d.device_id) ∷ targets)
  left :
      (d : Device) {devices : List Device} {targets : List (String × String)}
      → (d.mqtt_user ≡ requester) ⊎ (d.mqtt_user ≡ "")
      → Others requester devices targets
      → Others requester (d ∷ devices) targets

differs : (s t : String) → (s == t) ≡ false → s ≢ t
differs s t e same = absurd (let wrong = (eq_iff s t).1 same in cc)

get_other_devices-Others :
    (requester : String) (devices : List Device)
    → Others requester devices (get_other_devices requester devices)
unfolding get_other_devices
get_other_devices-Others requester [] = nil
get_other_devices-Others requester (d ∷ devices) = elim (Bool-cases (d.mqtt_user == requester)) [
  | inl own ↦ rw own (
      left d (inl ((eq_iff d.mqtt_user requester).0 own))
        (get_other_devices-Others requester devices))
  | inr other ↦ elim (Bool-cases (d.mqtt_user == "")) [
    | inl unnamed ↦ rw other (
        rw unnamed (
          left d (inr ((eq_iff d.mqtt_user "").0 unnamed))
            (get_other_devices-Others requester devices)))
    | inr named ↦ rw other (
        rw named (
          taken d (differs d.mqtt_user requester other) (differs d.mqtt_user "" named)
            (get_other_devices-Others requester devices)))
  ]
]

-- Who asks: the certificate's common name, or without one the user of the topic.
abbrev pub requester_of : Data → String
requester_of cmd_data =
    either (text_at (get cmd_data "tls_cn")) (text_at (get cmd_data "mqtt_user"))

-- A reportLocation of somebody known, on a topic of their own.
abbrev pub IsOwnReport : Data → Type 0
IsOwnReport cmd_data =
    (is_report (get cmd_data "action") ≡ true)
    × (requester_of cmd_data ≢ "")
    × (text_at (get cmd_data "user") ≡ requester_of cmd_data)

module _ (broker : Option (ℕ → Bool)) (cmd_data : Data) (devices : List Device) (wire : Wire) where
  pub data Relay (after : Wire) : Type 0 where
    ignored : ¬ IsOwnReport cmd_data → after ≡ wire → Relay after
    passed_on :
        IsOwnReport cmd_data
        → (targets : List (String × String)) (ps : List Publication)
        → Others (requester_of cmd_data) devices targets
        → Reported broker wire targets ps after
        → after.published ≡ wire.published ++ ps
        → Relay after

  relayed :
      IsOwnReport cmd_data
      → Relay
          (relay_to (amqtt_client broker) (get_other_devices (requester_of cmd_data) devices) wire)
  relayed own =
      let r = relay_to-Relayed broker (get_other_devices (requester_of cmd_data) devices) wire in
      passed_on own _ r.ps (get_other_devices-Others (requester_of cmd_data) devices) r.reported
        r.published

  guarded :
      (a b c : Bool)
      → is_report (get cmd_data "action") ≡ a
      → (requester_of cmd_data == "") ≡ b
      → (text_at (get cmd_data "user") == requester_of cmd_data) ≡ c
      → Relay (
          if not a || b || not c
          then wire
          else relay_to
              (amqtt_client broker)
              (get_other_devices (requester_of cmd_data) devices)
              wire)
  guarded false b c ea eb ec = ignored (λ own. let wrong = own.0 in cc) refl
  guarded true true c ea eb ec =
      ignored (λ own. own.1 ((eq_iff (requester_of cmd_data) "").0 eb)) refl
  guarded true false false ea eb ec =
      ignored (λ own. differs (text_at (get cmd_data "user")) (requester_of cmd_data) ec own.2) refl
  guarded true false true ea eb ec = relayed (
    ea,
    differs (requester_of cmd_data) "" eb,
    (eq_iff (text_at (get cmd_data "user")) (requester_of cmd_data)).0 ec,
  )

  -- A reportLocation command that somebody known sends on a topic of their own is passed on to each device
  -- of every other named user, once and in order, except for a device for which the publisher, called with
  -- what has gone out until then, does not return True; the later devices are asked all the same, where there is a broker.
  -- Nobody is asked about a device of their own, and any other command is passed on to nobody.
  pub handle_cmd_from_device-Relay : Relay (handle_cmd_from_device broker cmd_data devices wire)
  unfolding handle_cmd_from_device
  handle_cmd_from_device-Relay = guarded _ _ _ refl refl refl
