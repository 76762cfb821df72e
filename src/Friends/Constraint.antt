-- ===== src/Friends/Constraint.antt =====
-- The handlers of app/views.py and the constraint unique_together of FriendRequest.
use my_tracks.Base.{
  ℕ, String, Option, none, some, List, [], ◌∷◌, Bool, false, not, any, ◌&&◌, ◌||◌, ◌==◌,
  compared_numbers, compared_texts, ◌≡◌, if-cases,
}
use my_tracks.Text.{strip}
use my_tracks.Devices.{Account, Device}
use my_tracks.Friends.{
  accepted, declined, is_pending, is_declined, FriendRequest, Tables, Reply, sends, befriends,
  are_friends, first_where, has_key, save, with_requests, waits, answer_incoming, without_declined,
  request_of, create_request, update_or_create, accept_found, accept_request, decline_found,
  decline_request, cancel_found, cancel_request,
}
use my_tracks.Friends.Shares.{
  has_pk, remove_friend, get_friend, is_share, share_of, is_named, create_share, is_granted,
  destroy_share, Action, sent, accepted_by, declined_by, cancelled_by, removed_by, shared, unshared,
  handle, run,
}
use my_tracks.Friends.Parting.{any_gone}
use my_tracks.Friends.Unique.{
  AreUnique, save-AreUnique, each-AreUnique, without-AreUnique, delete-AreUnique, no_request,
}

abbrev RepliesUnique : Reply → Type 0
RepliesUnique reply = AreUnique reply.1.requests

answer_incoming-AreUnique :
    (incoming : Option FriendRequest) (user target : ℕ) (auto : Bool) (db : Tables)
    → any (λ r. sends user target r && is_declined r.status) db.requests ≡ false
    → are_friends user target db.requests ≡ false
    → AreUnique db.requests
    → AreUnique (answer_incoming incoming user target auto db).1.requests
unfolding are_friends
answer_incoming-AreUnique (some r) user target auto db d a h =
    if-cases RepliesUnique (auto || r.auto_accept_reciprocal)
      (λ _. save-AreUnique r.pk accepted db.requests h) (λ _. h)
answer_incoming-AreUnique none user target auto db d a h =
    if-cases RepliesUnique (any (waits user target) db.requests) (λ _. h)
      (λ w. (no_request user target db.requests d a w, h))

request_of-AreUnique :
    (target : Option Account) (user : ℕ) (auto : Bool) (db : Tables)
    → AreUnique db.requests
    → AreUnique (request_of target user auto db).1.requests
request_of-AreUnique none user auto db h = h
request_of-AreUnique (some target) user auto db h =
    let refused = λ (r : FriendRequest). sends user target.pk r && is_declined r.status in
    let rest = without-AreUnique refused db.requests h in
    if-cases RepliesUnique (target.pk == user) (λ _. h)
      (λ _.
        if-cases RepliesUnique
          (are_friends user target.pk (without_declined user target.pk db).requests) (λ _. rest)
          (λ strangers.
            answer_incoming-AreUnique
              (first_where (waits target.pk user) (without_declined user target.pk db).requests)
              user target.pk auto (without_declined user target.pk db)
              (any_gone refused refused (λ r e. e) db.requests) strangers rest))

create_request-AreUnique :
    (user : ℕ) (username : String) (auto : Bool) (db : Tables)
    → AreUnique db.requests
    → AreUnique (create_request user username auto db).1.requests
unfolding create_request
create_request-AreUnique user username auto db h =
    if-cases RepliesUnique (strip username == "") (λ _. h)
      (λ _.
        request_of-AreUnique (first_where (λ a. a.username == strip username) db.users) user auto db
          h)

update_or_create-AreUnique :
    (user other : ℕ) (db : Tables)
    → AreUnique db.requests
    → AreUnique (update_or_create user other db).requests
update_or_create-AreUnique user other db h =
    if-cases {A = Tables} (λ after. AreUnique after.requests) (any (sends user other) db.requests)
      (λ _. each-AreUnique user other db.requests h) (λ new. (new, h))

accept_found-AreUnique :
    (found : Option FriendRequest) (user : ℕ) (auto : Bool) (db : Tables)
    → AreUnique db.requests
    → AreUnique (accept_found found user auto db).1.requests
accept_found-AreUnique none user auto db h = h
accept_found-AreUnique (some r) user auto db h =
    let saved = with_requests (save r.pk accepted db.requests) db in
    let first = save-AreUnique r.pk accepted db.requests h in
    if-cases RepliesUnique (not (r.to_user == user)) (λ _. h)
      (λ _.
        if-cases RepliesUnique (not (is_pending r.status)) (λ _. h)
          (λ _.
            if-cases {A = Tables} (λ after. AreUnique after.requests) auto
              (λ _. update_or_create-AreUnique user r.from_user saved first) (λ _. first)))

decline_found-AreUnique :
    (found : Option FriendRequest) (user : ℕ) (db : Tables)
    → AreUnique db.requests
    → AreUnique (decline_found found user db).1.requests
decline_found-AreUnique none user db h = h
decline_found-AreUnique (some r) user db h =
    if-cases RepliesUnique (not (r.to_user == user)) (λ _. h)
      (λ _.
        if-cases RepliesUnique (not (is_pending r.status)) (λ _. h)
          (λ _. save-AreUnique r.pk declined db.requests h))

cancel_found-AreUnique :
    (found : Option FriendRequest) (user : ℕ) (db : Tables)
    → AreUnique db.requests
    → AreUnique (cancel_found found user db).1.requests
cancel_found-AreUnique none user db h = h
cancel_found-AreUnique (some r) user db h =
    if-cases RepliesUnique (r.from_user == user && is_pending r.status)
      (λ _. delete-AreUnique r.pk db.requests h) (λ _. h)

remove_friend-AreUnique :
    (user other : ℕ) (db : Tables)
    → AreUnique db.requests
    → AreUnique (remove_friend user other db).1.requests
unfolding remove_friend
remove_friend-AreUnique user other db h =
    if-cases RepliesUnique (not (any (has_pk other) db.users)) (λ _. h)
      (λ _.
        if-cases RepliesUnique (are_friends user other db.requests)
          (λ _. without-AreUnique (befriends user other) db.requests h) (λ _. h))

share_of-AreUnique :
    (device : Option Device) (friend : ℕ) (db : Tables)
    → AreUnique db.requests
    → AreUnique (share_of device friend db).1.requests
share_of-AreUnique none friend db h = h
share_of-AreUnique (some d) friend db h =
    if-cases RepliesUnique (any (is_share d.pk friend) db.shares) (λ _. h) (λ _. h)

create_share-AreUnique :
    (user friend : ℕ) (device_id : String) (db : Tables)
    → AreUnique db.requests
    → AreUnique (create_share user friend device_id db).1.requests
unfolding create_share
create_share-AreUnique user friend device_id db h =
    if-cases RepliesUnique (get_friend user friend db == 200)
      (λ _.
        if-cases RepliesUnique (strip device_id == "") (λ _. h)
          (λ _.
            share_of-AreUnique (first_where (is_named user (strip device_id)) db.devices) friend db
              h))
      (λ _. h)

destroy_share-AreUnique :
    (user friend : ℕ) (device_id : String) (db : Tables)
    → AreUnique db.requests
    → AreUnique (destroy_share user friend device_id db).1.requests
unfolding destroy_share
destroy_share-AreUnique user friend device_id db h =
    if-cases RepliesUnique (not (get_friend user friend db == 200)) (λ _. h)
      (λ _.
        if-cases RepliesUnique (any (is_granted user friend device_id db.devices) db.shares)
          (λ _. h) (λ _. h))

handle-AreUnique :
    (action : Action) (db : Tables)
    → AreUnique db.requests
    → AreUnique (handle action db).1.requests
unfolding handle accept_request decline_request cancel_request
handle-AreUnique (sent user username auto) db h = create_request-AreUnique user username auto db h
handle-AreUnique (accepted_by user pk auto) db h =
    accept_found-AreUnique (first_where (has_key pk) db.requests) user auto db h
handle-AreUnique (declined_by user pk) db h =
    decline_found-AreUnique (first_where (has_key pk) db.requests) user db h
handle-AreUnique (cancelled_by user pk) db h =
    cancel_found-AreUnique (first_where (has_key pk) db.requests) user db h
handle-AreUnique (removed_by user other) db h = remove_friend-AreUnique user other db h
handle-AreUnique (shared user friend device_id) db h =
    create_share-AreUnique user friend device_id db h
handle-AreUnique (unshared user friend device_id) db h =
    destroy_share-AreUnique user friend device_id db h

-- If no two friend requests have one sender and one receiver, then so it is after any sequence of
-- requests to the handlers, so that no insertion runs into the constraint of the table.
pub run-AreUnique :
    (actions : List Action) (db : Tables)
    → AreUnique db.requests
    → AreUnique (run actions db).requests
unfolding run
run-AreUnique [] db h = h
run-AreUnique (a ∷ actions) db h = run-AreUnique actions (handle a db).1 (handle-AreUnique a db h)
