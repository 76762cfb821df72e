-- ===== src/Friends/Shares.antt =====
-- Removing a friend, and the shares of devices with friends: FriendViewSet.destroy and
-- DeviceShareViewSet of app/views.py.
use my_tracks.Base.{
  ℕ, String, Option, none, some, List, [], ◌∷◌, Bool, false, not, any, ◌&&◌, ◌==◌, compared_numbers,
  compared_texts, if◌then◌else◌,
}
use my_tracks.Text.{strip}
use my_tracks.Devices.{Account, Device}
use my_tracks.Friends.{
  Tables, Reply, without, befriends, are_friends, first_where, create_request, accept_request,
  decline_request, cancel_request,
}

abbrev pub owner_is : ℕ → Option ℕ → Bool
owner_is user none = false
owner_is user (some owner) = owner == user

-- device__owner=user, for the key of a device
abbrev pub owned_by : ℕ → ℕ → List Device → Bool
owned_by user device devices = any (λ d. d.pk == device && owner_is user d.owner) devices

-- DeviceShare.objects.filter(device__owner=user, shared_with=other)
abbrev pub shared_by : ℕ → ℕ → List Device → ℕ × ℕ → Bool
shared_by user other devices (device, with_user) =
    owned_by user device devices && with_user == other

abbrev pub has_pk : ℕ → Account → Bool
has_pk pk account = account.pk == pk

abbrev pub parted : ℕ → ℕ → Tables → Tables
parted user other db = record db {
  requests = without (befriends user other) db.requests;
  shares =
      without (shared_by other user db.devices)
        (without (shared_by user other db.devices) db.shares);
}

unfoldable pub remove_friend : ℕ → ℕ → Tables → Reply
unfolding are_friends
remove_friend user other db =
    if not (any (has_pk other) db.users)
    then (404, db)
    else if are_friends user other db.requests
    then (204, parted user other db)
    else (404, db)

-- Another status than 200 is an error's.
unfoldable pub get_friend : ℕ → ℕ → Tables → ℕ
unfolding are_friends
get_friend user friend db =
    if not (any (has_pk friend) db.users)
    then 404
    else if are_friends user friend db.requests
    then 200
    else 403

abbrev pub is_share : ℕ → ℕ → ℕ × ℕ → Bool
is_share device friend (shared, with_user) = shared == device && with_user == friend

abbrev pub share_of : Option Device → ℕ → Tables → Reply
share_of none friend db = (403, db)
share_of (some device) friend db =
    if any (is_share device.pk friend) db.shares
    then (200, db)
    else (201, record db { shares = (device.pk, friend) ∷ db.shares })

abbrev pub is_named : ℕ → String → Device → Bool
is_named user device_id d = d.device_id == device_id && owner_is user d.owner

abbrev pub share_with : ℕ → ℕ → String → Tables → Reply
share_with user friend device_id db =
    if device_id == ""
    then (400, db)
    else share_of (first_where (is_named user device_id) db.devices) friend db

unfoldable pub create_share : ℕ → ℕ → String → Tables → Reply
unfolding get_friend strip
create_share user friend device_id db =
    let found = get_friend user friend db in
    if found == 200 then share_with user friend (strip device_id) db else (found, db)

-- The rows of DeviceShare that a deletion by owner, name and friend takes.
abbrev pub is_granted : ℕ → ℕ → String → List Device → ℕ × ℕ → Bool
is_granted user friend device_id devices (device, with_user) =
    any (λ d. d.pk == device && is_named user device_id d) devices && with_user == friend

unfoldable pub destroy_share : ℕ → ℕ → String → Tables → Reply
unfolding get_friend
destroy_share user friend device_id db =
    let found = get_friend user friend db in
    if not (found == 200)
    then (found, db)
    else if any (is_granted user friend device_id db.devices) db.shares
    then (
      204,
      record db { shares = without (is_granted user friend device_id db.devices) db.shares },
    )
    else (404, db)

-- A request to one of the three, with the user who makes it.
pub data Action : Type 0 where
  sent : ℕ → String → Bool → Action
  accepted_by : ℕ → ℕ → Bool → Action
  declined_by cancelled_by removed_by : ℕ → ℕ → Action
  shared unshared : ℕ → ℕ → String → Action

unfoldable pub handle : Action → Tables → Reply
unfolding create_request accept_request decline_request cancel_request remove_friend create_share
    destroy_share
handle (sent user username auto) db = create_request user username auto db
handle (accepted_by user pk auto) db = accept_request user pk auto db
handle (declined_by user pk) db = decline_request user pk db
handle (cancelled_by user pk) db = cancel_request user pk db
handle (removed_by user other) db = remove_friend user other db
handle (shared user friend device_id) db = create_share user friend device_id db
handle (unshared user friend device_id) db = destroy_share user friend device_id db

unfoldable pub run : List Action → Tables → Tables
unfolding handle
run [] db = db
run (a ∷ actions) db = run actions (handle a db).1
