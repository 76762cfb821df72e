-- ===== src/Friends/Kinds.antt =====
-- The handlers of FriendRequestViewSet of app/views.py, seen from the friendships and the shares.
use my_tracks.Base.{
  ℕ, String, Option, none, some, List, All, Bool, true, false, not, any, ◌&&◌, ◌||◌, ◌==◌,
  compared_numbers, compared_texts, ◌≡◌, refl, sym, subst, arith, if-cases, ◌∙◌,
}
use my_tracks.Text.{strip}
use my_tracks.Devices.{Account, Device}
use my_tracks.Friends.{
  RequestStatus, pending, accepted, declined, is_pending, FriendRequest, Tables, Reply, sends,
  befriends, are_friends, first_where, has_key, save, delete, with_requests, add_request, waits,
  answer_incoming, without_declined, send_to, request_of, create_request, reciprocal, each,
  update_or_create, accept_found, decline_found, cancel_found,
}
use my_tracks.Friends.Shares.{owned_by}
use my_tracks.Friends.Kept.{
  Keeps, map-All, save_accepted-Keeps, save_declined-Keeps, delete-Keeps, without_declined-Keeps,
  reciprocal-Keeps,
}

-- The share's device has an owner, who is a friend of the user it is shared with.
abbrev pub IsTrusted : List Device → List FriendRequest → ℕ × ℕ → Type 0
IsTrusted devices requests (device, with_user) =
    (owner : ℕ) × (owned_by owner device devices ≡ true)
    × (are_friends owner with_user requests ≡ true)

abbrev pub AreTrusted : Tables → Type 0
AreTrusted db = All (IsTrusted db.devices db.requests) db.shares

-- What a handler may do with the requests: all friends stay friends, the rest is left alone.
pub record IsKind (db after : Tables) : Type 0 where
  devices_same : after.devices ≡ db.devices
  shares_same : after.shares ≡ db.shares
  keeps : Keeps db.requests after.requests

pub unchanged : (db : Tables) → IsKind db db
unchanged db = record { devices_same = refl; shares_same = refl; keeps = λ a b e. e }

with_requests-IsKind :
    (rows : List FriendRequest) (db : Tables)
    → Keeps db.requests rows
    → IsKind db (with_requests rows db)
with_requests-IsKind rows db keeps = record {
  devices_same = refl;
  shares_same = refl;
  keeps = keeps;
}

and_then : (db middle after : Tables) → IsKind db middle → IsKind middle after → IsKind db after
and_then db middle after first second = record {
  devices_same = second.devices_same ∙ first.devices_same;
  shares_same = second.shares_same ∙ first.shares_same;
  keeps = λ a b e. second.keeps a b (first.keeps a b e);
}

pub kind-AreTrusted : (db after : Tables) → IsKind db after → AreTrusted db → AreTrusted after
unfolding are_friends
kind-AreTrusted db after kind h =
    subst (λ devices. All (IsTrusted devices after.requests) after.shares) (sym kind.devices_same)
      (subst (All (IsTrusted db.devices after.requests)) (sym kind.shares_same) (
        map-All (IsTrusted db.devices db.requests) (IsTrusted db.devices after.requests)
          (λ s (owner, owned, friends). (owner, owned, kind.keeps owner s.1 friends)) db.shares h))

or_true : (b : Bool) → (b || true) ≡ true
or_true true = refl
or_true false = refl

add_request-IsKind :
    (user target : ℕ) (status : RequestStatus) (auto : Bool) (db : Tables)
    → IsKind db (add_request user target status auto db)
add_request-IsKind user target status auto db = record {
  devices_same = refl;
  shares_same = refl;
  keeps = λ a b e. rw e (
      or_true (
        befriends a b record {
          pk = db.next_request;
          from_user = user;
          to_user = target;
          status = status;
          auto_accept_reciprocal = auto;
        }));
}

-- The requests' handlers.
abbrev RepliesKind : Tables → Reply → Type 0
RepliesKind db reply = IsKind db reply.1

answer_incoming-IsKind :
    (incoming : Option FriendRequest) (user target : ℕ) (auto : Bool) (db : Tables)
    → IsKind db (answer_incoming incoming user target auto db).1
answer_incoming-IsKind (some r) user target auto db =
    if-cases (RepliesKind db) (auto || r.auto_accept_reciprocal)
      (λ _.
        with_requests-IsKind (save r.pk accepted db.requests) db
          (save_accepted-Keeps r.pk db.requests))
      (λ _. unchanged db)
answer_incoming-IsKind none user target auto db =
    if-cases (RepliesKind db) (any (waits user target) db.requests) (λ _. unchanged db)
      (λ _. add_request-IsKind user target pending auto db)

request_of-IsKind :
    (target : Option Account) (user : ℕ) (auto : Bool) (db : Tables)
    → IsKind db (request_of target user auto db).1
request_of-IsKind none user auto db = unchanged db
request_of-IsKind (some target) user auto db =
    if-cases (RepliesKind db) (target.pk == user) (λ _. unchanged db)
      (λ _.
        and_then db (without_declined user target.pk db)
          (send_to user target.pk auto (without_declined user target.pk db)).1
          (with_requests-IsKind _ db (without_declined-Keeps user target.pk db.requests))
          (if-cases (RepliesKind (without_declined user target.pk db))
            (are_friends user target.pk (without_declined user target.pk db).requests)
            (λ _. unchanged (without_declined user target.pk db))
            (λ _.
              answer_incoming-IsKind
                (first_where (waits target.pk user) (without_declined user target.pk db).requests)
                user target.pk auto (without_declined user target.pk db))))

pub create_request-IsKind :
    (user : ℕ) (username : String) (auto : Bool) (db : Tables)
    → IsKind db (create_request user username auto db).1
unfolding create_request
create_request-IsKind user username auto db =
    if-cases (RepliesKind db) (strip username == "") (λ _. unchanged db)
      (λ _.
        request_of-IsKind (first_where (λ a. a.username == strip username) db.users) user auto db)

update_or_create-IsKind :
    (user other : ℕ) (db : Tables) → IsKind db (update_or_create user other db)
update_or_create-IsKind user other db =
    if-cases (IsKind db) (any (sends user other) db.requests)
      (λ _.
        with_requests-IsKind (each (reciprocal user other) db.requests) db
          (reciprocal-Keeps user other db.requests))
      (λ _. add_request-IsKind user other accepted true db)

pub accept_found-IsKind :
    (found : Option FriendRequest) (user : ℕ) (auto : Bool) (db : Tables)
    → IsKind db (accept_found found user auto db).1
accept_found-IsKind none user auto db = unchanged db
accept_found-IsKind (some r) user auto db =
    let saved = with_requests (save r.pk accepted db.requests) db in
    let first : IsKind db saved =
      with_requests-IsKind (save r.pk accepted db.requests) db
        (save_accepted-Keeps r.pk db.requests) in
    if-cases (RepliesKind db) (not (r.to_user == user)) (λ _. unchanged db)
      (λ _.
        if-cases (RepliesKind db) (not (is_pending r.status)) (λ _. unchanged db)
          (λ _.
            if-cases (IsKind db) auto
              (λ _.
                and_then db saved (update_or_create user r.from_user saved) first
                  (update_or_create-IsKind user r.from_user saved))
              (λ _. first)))

not_pending : (b : Bool) → not b ≡ false → b ≡ true
not_pending true e = refl
not_pending false e = cc

pub decline_found-IsKind :
    (found : Option FriendRequest) (user : ℕ) (db : Tables)
    → ((r : FriendRequest) → found ≡ some r → first_where (has_key r.pk) db.requests ≡ some r)
    → IsKind db (decline_found found user db).1
decline_found-IsKind none user db e = unchanged db
decline_found-IsKind (some r) user db e =
    if-cases (RepliesKind db) (not (r.to_user == user)) (λ _. unchanged db)
      (λ _.
        if-cases (RepliesKind db) (not (is_pending r.status)) (λ _. unchanged db)
          (λ waits. with_requests-IsKind (save r.pk declined db.requests) db (
            save_declined-Keeps r.pk r (not_pending (is_pending r.status) waits) db.requests
              (e r refl))))

pub cancel_found-IsKind :
    (found : Option FriendRequest) (user : ℕ) (db : Tables)
    → ((r : FriendRequest) → found ≡ some r → first_where (has_key r.pk) db.requests ≡ some r)
    → IsKind db (cancel_found found user db).1
cancel_found-IsKind none user db e = unchanged db
cancel_found-IsKind (some r) user db e =
    if-cases (RepliesKind db) (r.from_user == user && is_pending r.status)
      (λ allowed.
        with_requests-IsKind (delete r.pk db.requests) db
          (delete-Keeps r.pk r (ground arith) db.requests (e r refl)))
      (λ _. unchanged db)
