-- ===== src/Devices/Updates.antt =====
-- What a location updates in its device's row, from the sender's names: app/mqtt/plugin.py
-- (save_location_to_db).
use my_tracks.Base.{
  ℕ, String, Option, none, some, List, Bool, true, not, ◌&&◌, ◌==◌, compared_texts, if◌then◌else◌,
}
use my_tracks.Base.Int.{ℤ}
use my_tracks.Base.Table.{get}
use my_tracks.Extraction.{Value, word, moment, Data}
use my_tracks.Devices.{Account, Device, account_named}

abbrev pub word_of : Option Value → Option String
word_of (some (word s)) = some s
word_of _ = none

-- The instant of a timestamp.
abbrev pub moment_of : Option Value → Option ℤ
moment_of (some (moment t)) = some t
moment_of _ = none

-- data.get(key, "") of a text
abbrev pub text_at : Option Value → String
text_at (some (word s)) = s
text_at _ = ""

-- data.get("tls_cn") or mqtt_user
abbrev pub either : String → String → String
either first second = if not (first == "") then first else second

abbrev owner_pk : Option Account → Option ℕ
owner_pk none = none
owner_pk (some a) = some a.pk

-- User.objects.filter(username=owner_username).first(), where there is a name
unfoldable pub resolve_owner : String → List Account → Option ℕ
resolve_owner username users =
    if not (username == "") then owner_pk (account_named users username) else none

-- The dictionary `updates`; `none` is a key that it lacks.
pub record Updates : Type 0 where
  pub last_seen : ℕ
  pub last_location_at : ℕ
  pub is_online : Option Bool
  pub mqtt_user : Option String
  pub owner : Option ℕ

abbrev pub if_unowned : Option ℕ → Option ℕ → Option ℕ
if_unowned none found = found
if_unowned (some pk) found = none

unfoldable pub updates_for : Data → List Account → ℕ → Device → Updates
updates_for location_data users t device =
    let mqtt_user = text_at (get location_data "mqtt_user") in
    record {
      last_seen = t;
      last_location_at = t;
      is_online = if not device.is_online then some true else none;
      mqtt_user =
          if not (mqtt_user == "") && not (device.mqtt_user == mqtt_user)
          then some mqtt_user
          else none;
      owner =
          if_unowned device.owner
            (resolve_owner (either (text_at (get location_data "tls_cn")) mqtt_user) users);
    }

abbrev pub kept_or {ℓ} : {A : Type ℓ} → A → Option A → A
kept_or old none = old
kept_or old (some new) = new

abbrev pub owner_or : Option ℕ → Option ℕ → Option ℕ
owner_or old none = old
owner_or old (some pk) = some pk

unfoldable pub apply_updates : Updates → Device → Device
apply_updates u d = record d {
  last_seen = u.last_seen;
  last_location_at = some u.last_location_at;
  is_online = kept_or d.is_online u.is_online;
  mqtt_user = kept_or d.mqtt_user u.mqtt_user;
  owner = owner_or d.owner u.owner;
}
