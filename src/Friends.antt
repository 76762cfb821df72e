-- ===== src/Friends.antt =====
-- Friend requests, friends and device shares: FriendRequestViewSet, FriendViewSet and
-- DeviceShareViewSet of app/views.py, with the tables of app/models.py. A handler gives the status of
-- its response and the tables after it. The keys of the address have been read as numbers.
pub mod Shares
pub mod Kept
pub mod Kinds
pub mod Trust
pub mod Parting
pub mod Unique
pub mod Constraint
pub mod Visible
pub mod Audience
use my_tracks.Base.{
  ℕ, String, Option, none, some, List, [], ◌∷◌, Bool, true, false, not, any, ◌+◌, ◌&&◌, ◌||◌, ◌==◌,
  compared_numbers, compared_texts, if◌then◌else◌,
}
use my_tracks.Text.{strip}
use my_tracks.Devices.{Account, Device}

pub data RequestStatus : Type 0 where
  pending accepted declined : RequestStatus

abbrev pub is_pending : RequestStatus → Bool
is_pending pending = true
is_pending accepted = false
is_pending declined = false

abbrev pub is_accepted : RequestStatus → Bool
is_accepted pending = false
is_accepted accepted = true
is_accepted declined = false

abbrev pub is_declined : RequestStatus → Bool
is_declined pending = false
is_declined accepted = false
is_declined declined = true

pub record FriendRequest : Type 0 where
  pub pk : ℕ
  pub from_user : ℕ
  pub to_user : ℕ
  pub status : RequestStatus
  pub auto_accept_reciprocal : Bool

-- The tables; a share is a device and the user it is shared with.
pub record Tables : Type 0 where
  pub users : List Account
  pub devices : List Device
  pub requests : List FriendRequest
  pub shares : List (ℕ × ℕ)
  pub next_request : ℕ

abbrev pub Reply : Type 0
Reply = ℕ × Tables

-- The rows that are left by a deletion.
abbrev pub without : {A : Type 0} → (A → Bool) → List A → List A
without p [] = []
without p (x ∷ xs) = let rest = without p xs in if p x then rest else x ∷ rest

abbrev pub sends : ℕ → ℕ → FriendRequest → Bool
sends a b r = r.from_user == a && r.to_user == b

-- An accepted request between the two, in either direction.
abbrev pub befriends : ℕ → ℕ → FriendRequest → Bool
befriends a b r = is_accepted r.status && (sends a b r || sends b a r)

unfoldable pub are_friends : ℕ → ℕ → List FriendRequest → Bool
are_friends a b requests = any (befriends a b) requests

abbrev pub first_where : {A : Type 0} → (A → Bool) → List A → Option A
first_where p [] = none
first_where p (x ∷ xs) = let later = first_where p xs in if p x then some x else later

abbrev pub has_key : ℕ → FriendRequest → Bool
has_key pk r = r.pk == pk

-- save() of the row with a key, and delete() of it.
abbrev pub save : ℕ → RequestStatus → List FriendRequest → List FriendRequest
save pk status [] = []
save pk status (r ∷ rows) =
    let rest = save pk status rows in
    if has_key pk r then record r { status = status } ∷ rows else r ∷ rest

abbrev pub delete : ℕ → List FriendRequest → List FriendRequest
delete pk [] = []
delete pk (r ∷ rows) = let rest = delete pk rows in if has_key pk r then rows else r ∷ rest

abbrev pub with_requests : List FriendRequest → Tables → Tables
with_requests rows db = record db { requests = rows }

-- FriendRequest.objects.create
abbrev pub add_request : ℕ → ℕ → RequestStatus → Bool → Tables → Tables
add_request user target status auto db = record db {
  requests =
      record {
        pk = db.next_request;
        from_user = user;
        to_user = target;
        status = status;
        auto_accept_reciprocal = auto;
      }
      ∷ db.requests;
  next_request = db.next_request + 1;
}

abbrev pub waits : ℕ → ℕ → FriendRequest → Bool
waits a b r = sends a b r && is_pending r.status

abbrev pub answer_incoming : Option FriendRequest → ℕ → ℕ → Bool → Tables → Reply
answer_incoming (some incoming) user target auto db =
    if auto || incoming.auto_accept_reciprocal
    then (200, with_requests (save incoming.pk accepted db.requests) db)
    else (409, db)
answer_incoming none user target auto db =
    if any (waits user target) db.requests
    then (409, db)
    else (201, add_request user target pending auto db)

-- Declined requests of the user to the target go first.
abbrev pub without_declined : ℕ → ℕ → Tables → Tables
without_declined user target db =
    with_requests (without (λ r. sends user target r && is_declined r.status) db.requests) db

abbrev pub send_to : ℕ → ℕ → Bool → Tables → Reply
send_to user target auto db =
    if are_friends user target db.requests
    then (409, db)
    else answer_incoming (first_where (waits target user) db.requests) user target auto db

abbrev pub request_of : Option Account → ℕ → Bool → Tables → Reply
request_of none user auto db = (404, db)
request_of (some target) user auto db =
    if target.pk == user
    then (400, db)
    else send_to user target.pk auto (without_declined user target.pk db)

unfoldable pub create_request : ℕ → String → Bool → Tables → Reply
unfolding strip are_friends
create_request user username auto db =
    let name = strip username in
    if name == ""
    then (400, db)
    else request_of (first_where (λ a. a.username == name) db.users) user auto db

-- update_or_create of the request in the other direction
abbrev pub reciprocal : ℕ → ℕ → FriendRequest → FriendRequest
reciprocal user other r =
    if sends user other r then record r { status = accepted; auto_accept_reciprocal = true } else r

abbrev pub each : (FriendRequest → FriendRequest) → List FriendRequest → List FriendRequest
each f [] = []
each f (r ∷ rows) = f r ∷ each f rows

abbrev pub update_or_create : ℕ → ℕ → Tables → Tables
update_or_create user other db =
    if any (sends user other) db.requests
    then with_requests (each (reciprocal user other) db.requests) db
    else add_request user other accepted true db

abbrev pub accept_found : Option FriendRequest → ℕ → Bool → Tables → Reply
accept_found none user auto db = (404, db)
accept_found (some r) user auto db =
    let saved = with_requests (save r.pk accepted db.requests) db in
    if not (r.to_user == user)
    then (404, db)
    else if not (is_pending r.status)
    then (400, db)
    else (200, (if auto then update_or_create user r.from_user saved else saved))

unfoldable pub accept_request : ℕ → ℕ → Bool → Tables → Reply
accept_request user pk auto db = accept_found (first_where (has_key pk) db.requests) user auto db

abbrev pub decline_found : Option FriendRequest → ℕ → Tables → Reply
decline_found none user db = (404, db)
decline_found (some r) user db =
    if not (r.to_user == user)
    then (404, db)
    else if not (is_pending r.status)
    then (400, db)
    else (200, with_requests (save r.pk declined db.requests) db)

unfoldable pub decline_request : ℕ → ℕ → Tables → Reply
decline_request user pk db = decline_found (first_where (has_key pk) db.requests) user db

abbrev pub cancel_found : Option FriendRequest → ℕ → Tables → Reply
cancel_found none user db = (404, db)
cancel_found (some r) user db =
    if r.from_user == user && is_pending r.status
    then (204, with_requests (delete r.pk db.requests) db)
    else (404, db)

unfoldable pub cancel_request : ℕ → ℕ → Tables → Reply
cancel_request user pk db = cancel_found (first_where (has_key pk) db.requests) user db
