-- ===== src/Tests/Friends.antt =====
-- Friends and shares at concrete inputs.
use my_tracks.Base.{some, none, List, [], ◌∷◌, true, false, not, compared_numbers, ◌≡◌, refl}
use my_tracks.Text.{strip}
use my_tracks.Devices.{Device}
use my_tracks.Friends.{Tables, accepted, are_friends, without}
use my_tracks.Friends.Shares.{Action, sent, accepted_by, shared, removed_by, run, remove_friend}
use my_tracks.Friends.Visible.{visible_devices_for_user}
use my_tracks.Friends.Audience.{hears, visible_devices_for_user-hears}
use my_tracks.Friends.Trust.{run-AreTrusted}
use my_tracks.Friends.Kinds.{AreTrusted}
use my_tracks.Friends.Unique.{AreUnique}
use my_tracks.Friends.Constraint.{run-AreUnique}
use my_tracks.Friends.Parting.{Removal, remove_friend-Removal}

abbrev phone : Device
phone = record {
  pk = 1;
  device_id = "phone";
  name = "phone";
  mqtt_user = "alice";
  owner = some 7;
  is_online = false;
  last_seen = 0;
  last_location_at = none;
}

abbrev db : Tables
db = record {
  users = record { pk = 7; username = "alice" } ∷ record { pk = 8; username = "bob" } ∷ [];
  devices = phone ∷ [];
  requests =
      record {
        pk = 0;
        from_user = 8;
        to_user = 7;
        status = accepted;
        auto_accept_reciprocal = false;
      }
      ∷ [];
  shares = (1, 8) ∷ [];
  next_request = 1;
}

abbrev actions : List Action
actions = removed_by 7 8 ∷ sent 7 "bob" false ∷ accepted_by 8 1 true ∷ shared 7 8 "phone" ∷ []

db-AreTrusted : AreTrusted db
unfolding are_friends
db-AreTrusted = ((7, refl, refl), tt)

db-AreUnique : AreUnique db.requests
db-AreUnique = (refl, tt)

run-AreTrusted_example : AreTrusted (run actions db)
run-AreTrusted_example = run-AreTrusted actions db db-AreTrusted

run-AreUnique_example : AreUnique (run actions db).requests
run-AreUnique_example = run-AreUnique actions db db-AreUnique

remove_friend-Removal_example : Removal 7 8 db (remove_friend 7 8 db)
remove_friend-Removal_example = remove_friend-Removal 7 8 db

shared_again : (run actions db).shares ≡ (1, 8) ∷ []
unfolding run strip
shared_again = refl

visible_devices_for_user-hears_example :
    visible_devices_for_user false 8 (phone ∷ []) ((1, 8) ∷ [])
    ≡ without (λ d. not (hears false 8 ((1, 8) ∷ []) d)) (phone ∷ [])
visible_devices_for_user-hears_example =
    visible_devices_for_user-hears false 8 (phone ∷ []) ((1, 8) ∷ [])
