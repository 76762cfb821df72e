-- ===== src/Broadcasts.antt =====
-- Who hears of a device over WebSocket: app/ws_broadcast.py (user_ws_group, device_location_ws_groups,
-- broadcast_to_groups, broadcast_device_event). A group is written as what its name says, since the names
-- `staff` and `user_{id}` are all different; the order in which groups are sent to is left out. The
-- channel layer takes every message.
pub mod Audience
use my_tracks.Base.{
  ℕ, String, Option, none, some, List, [], ◌∷◌, ◌++◌, map, Bool, true, false, not, ◌==◌,
  compared_numbers, if◌then◌else◌,
}
use my_tracks.Devices.{Device, Store}
use my_tracks.Saving.{Saved, Status}
use my_tracks.Transitions.{SavedTransition}

pub data Group : Type 0 where
  staff : Group
  user_ws_group : ℕ → Group

abbrev pub same_group : Group → Group → Bool
same_group staff staff = true
same_group staff (user_ws_group _) = false
same_group (user_ws_group _) staff = false
same_group (user_ws_group m) (user_ws_group n) = m == n

unfoldable pub has_group : Group → List Group → Bool
has_group g [] = false
has_group g (h ∷ groups) = let later = has_group g groups in if same_group h g then true else later

-- groups.add(g)
abbrev pub add_group : Group → List Group → List Group
add_group g groups = if has_group g groups then groups else g ∷ groups

-- DeviceShare.objects.filter(device=device), each added
unfoldable pub add_shares : ℕ → List (ℕ × ℕ) → List Group → List Group
unfolding has_group
add_shares device [] groups = groups
add_shares device ((shared, user) ∷ shares) groups =
    add_shares device shares
      (if shared == device then add_group (user_ws_group user) groups else groups)

abbrev pub owner_groups : Option ℕ → List Group
owner_groups none = staff ∷ []
owner_groups (some owner) = user_ws_group owner ∷ staff ∷ []

unfoldable pub device_location_ws_groups : Device → List (ℕ × ℕ) → List Group
unfolding add_shares
device_location_ws_groups device shares = add_shares device.pk shares (owner_groups device.owner)

-- What is told: a location or a device's status, a number of new waypoints, or a transition.
pub data Body : Type 0 where
  location_update : Saved → Body
  device_status : Status → Body
  waypoint_event : ℕ → Body
  transition_event : SavedTransition → Body

abbrev pub Sending : Type 0
Sending = Group × Body

unfoldable pub broadcast_to_groups : List Group → Body → List Sending
broadcast_to_groups groups body = map (λ g. (g, body)) groups

unfoldable pub broadcast_device_event : Device → List (ℕ × ℕ) → Body → List Sending
unfolding device_location_ws_groups broadcast_to_groups
broadcast_device_event device shares body =
    broadcast_to_groups (device_location_ws_groups device shares) body
