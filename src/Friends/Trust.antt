-- ===== src/Friends/Trust.antt =====
-- Device shares beside friendships, over any requests to FriendRequestViewSet, FriendViewSet and
-- DeviceShareViewSet of app/views.py.
use my_tracks.Base.{
  ℕ, String, Option, none, some, List, [], ◌∷◌, All, Bool, true, false, not, any, ◌&&◌, ◌==◌,
  compared_numbers, compared_texts, ◌≡◌, refl, sym, subst, arith, if-cases, Bool-cases, inl, inr,
  ◌⊎◌, number_self,
}
use mathlib.Core.Option.{some-injective}
use my_tracks.Text.{strip}
use my_tracks.Devices.{Device}
use my_tracks.Friends.{
  FriendRequest, Tables, Reply, without, befriends, are_friends, first_where, has_key,
  create_request, accept_request, decline_request, cancel_request,
}
use my_tracks.Friends.Shares.{
  owner_is, owned_by, shared_by, has_pk, parted, remove_friend, get_friend, is_share, share_of,
  is_named, create_share, is_granted, destroy_share, Action, sent, accepted_by, declined_by,
  cancelled_by, removed_by, shared, unshared, handle, run,
}
use my_tracks.Friends.Kept.{any-without, without-All, first_where_test, found_key}
use my_tracks.Friends.Kinds.{
  IsTrusted, AreTrusted, kind-AreTrusted, create_request-IsKind, accept_found-IsKind,
  decline_found-IsKind, cancel_found-IsKind,
}

left-All :
    {A : Type 0} (P Q : A → Type 0) (p : A → Bool)
    → ((x : A) → P x → p x ≡ false → Q x)
    → (xs : List A) → All P xs
    → All Q (without p xs)
left-All P Q p f [] h = h
left-All P Q p f (x ∷ xs) (px, h) =
    if-cases (All Q) (p x) (λ _. left-All P Q p f xs h) (λ out. (f x px out, left-All P Q p f xs h))

same_pair :
    (a b c d : ℕ) (r : FriendRequest)
    → befriends a b r ≡ true
    → befriends c d r ≡ true
    → ((a ≡ c) × (b ≡ d)) ⊎ ((a ≡ d) × (b ≡ c))
same_pair a b c d r e f = ground arith

both : (p q : Bool) → p ≡ true → q ≡ true → (p && q) ≡ true
both true true e f = refl
both true false e f = cc
both false q e f = cc

-- What is left of a share after both deletions.
still-IsTrusted :
    (user other : ℕ) (db : Tables) (share : ℕ × ℕ)
    → IsTrusted db.devices db.requests share × (shared_by user other db.devices share ≡ false)
    → shared_by other user db.devices share ≡ false
    → IsTrusted db.devices (without (befriends user other) db.requests) share
unfolding are_friends
still-IsTrusted user other db (device, with_user) ((owner, owned, friends), not_mine) not_theirs = (
  owner,
  owned,
  any-without (befriends owner with_user) (befriends user other)
      (λ r e. elim (Bool-cases (befriends user other r)) [
        | inl removed ↦ elim (same_pair owner with_user user other r e removed) [
          | inl (same_owner, same_user) ↦
              let mine =
                both (owned_by user device db.devices) (with_user == other)
                  (subst (λ o. owned_by o device db.devices ≡ true) same_owner owned)
                  ((compared_numbers.agree_iff with_user other).1 same_user) in
              cc
          | inr (same_owner, same_user) ↦
              let theirs =
                both (owned_by other device db.devices) (with_user == user)
                  (subst (λ o. owned_by o device db.devices ≡ true) same_owner owned)
                  ((compared_numbers.agree_iff with_user user).1 same_user) in
              cc
        ]
        | inr stays ↦ stays
      ])
      db.requests friends,
)

parted-AreTrusted :
    (user other : ℕ) (db : Tables) → AreTrusted db → AreTrusted (parted user other db)
parted-AreTrusted user other db h =
    left-All (λ s. IsTrusted db.devices db.requests s × (shared_by user other db.devices s ≡ false))
      (IsTrusted db.devices (without (befriends user other) db.requests))
      (shared_by other user db.devices) (still-IsTrusted user other db)
      (without (shared_by user other db.devices) db.shares)
      (left-All (IsTrusted db.devices db.requests)
        (λ s. IsTrusted db.devices db.requests s × (shared_by user other db.devices s ≡ false))
        (shared_by user other db.devices) (λ s t e. (t, e)) db.shares h)

abbrev RepliesTrusted : Reply → Type 0
RepliesTrusted reply = AreTrusted reply.1

remove_friend-AreTrusted :
    (user other : ℕ) (db : Tables) → AreTrusted db → AreTrusted (remove_friend user other db).1
unfolding remove_friend
remove_friend-AreTrusted user other db h =
    if-cases RepliesTrusted (not (any (has_pk other) db.users)) (λ _. h)
      (λ _.
        if-cases RepliesTrusted (are_friends user other db.requests)
          (λ _. parted-AreTrusted user other db h) (λ _. h))

any_found :
    {A : Type 0} (p q : A → Bool) (found : A)
    → q found ≡ true
    → (xs : List A) → first_where p xs ≡ some found
    → any q xs ≡ true
any_found p q found e [] f = cc
any_found p q found e (x ∷ xs) f = elim (Bool-cases (p x)) [
  | inl here ↦
      let same = some-injective _ _ (rw here at f) in
      let top = subst (λ y. q y ≡ true) (sym same) e in rw top refl
  | inr there ↦
      let later = any_found p q found e xs (rw there at f) in
      elim (Bool-cases (q x)) [ inl top ↦ rw top refl | inr other ↦ rw other later ]
]

second : (p q : Bool) → (p && q) ≡ true → q ≡ true
second true q e = e
second false q e = cc

owned_here :
    (user : ℕ) (device_id : String) (d : Device) (devices : List Device)
    → first_where (is_named user device_id) devices ≡ some d
    → owned_by user d.pk devices ≡ true
owned_here user device_id d devices e =
    any_found (is_named user device_id) (λ x. x.pk == d.pk && owner_is user x.owner) d
      (both (d.pk == d.pk) (owner_is user d.owner) (number_self d.pk) (
        second (d.device_id == device_id) (owner_is user d.owner)
          (first_where_test (is_named user device_id) devices d e)))
      devices e

abbrev FindsFriend : ℕ → ℕ → Tables → ℕ → Type 0
FindsFriend user friend db status =
    (status == 200) ≡ true → are_friends user friend db.requests ≡ true

absent : (user friend : ℕ) (db : Tables) → FindsFriend user friend db 404
absent user friend db e = cc

stranger : (user friend : ℕ) (db : Tables) → FindsFriend user friend db 403
stranger user friend db e = cc

get_friend_found :
    (user friend : ℕ) (db : Tables) → FindsFriend user friend db (get_friend user friend db)
unfolding get_friend
get_friend_found user friend db =
    if-cases (FindsFriend user friend db) (not (any (has_pk friend) db.users))
      (λ _. absent user friend db)
      (λ _.
        if-cases (FindsFriend user friend db) (are_friends user friend db.requests)
          (λ friends e. friends) (λ _. stranger user friend db))

share_of-AreTrusted :
    (user friend : ℕ) (device : Option Device) (db : Tables)
    → ((d : Device) → device ≡ some d → owned_by user d.pk db.devices ≡ true)
    → are_friends user friend db.requests ≡ true
    → AreTrusted db
    → AreTrusted (share_of device friend db).1
share_of-AreTrusted user friend none db owned friends h = h
share_of-AreTrusted user friend (some d) db owned friends h =
    if-cases RepliesTrusted (any (is_share d.pk friend) db.shares) (λ _. h)
      (λ _. ((user, owned d refl, friends), h))

create_share-AreTrusted :
    (user friend : ℕ) (device_id : String) (db : Tables)
    → AreTrusted db
    → AreTrusted (create_share user friend device_id db).1
unfolding create_share
create_share-AreTrusted user friend device_id db h =
    if-cases RepliesTrusted (get_friend user friend db == 200)
      (λ found.
        if-cases RepliesTrusted (strip device_id == "") (λ _. h)
          (λ _.
            share_of-AreTrusted user friend
              (first_where (is_named user (strip device_id)) db.devices) db
              (λ d e. owned_here user (strip device_id) d db.devices e)
              (get_friend_found user friend db found) h))
      (λ _. h)

destroy_share-AreTrusted :
    (user friend : ℕ) (device_id : String) (db : Tables)
    → AreTrusted db
    → AreTrusted (destroy_share user friend device_id db).1
unfolding destroy_share
destroy_share-AreTrusted user friend device_id db h =
    if-cases RepliesTrusted (not (get_friend user friend db == 200)) (λ _. h)
      (λ _.
        if-cases RepliesTrusted (any (is_granted user friend device_id db.devices) db.shares)
          (λ _.
            without-All (IsTrusted db.devices db.requests)
              (is_granted user friend device_id db.devices) db.shares h)
          (λ _. h))

handle-AreTrusted :
    (action : Action) (db : Tables) → AreTrusted db → AreTrusted (handle action db).1
unfolding handle accept_request decline_request cancel_request
handle-AreTrusted (sent user username auto) db h =
    kind-AreTrusted db (create_request user username auto db).1
      (create_request-IsKind user username auto db) h
handle-AreTrusted (accepted_by user pk auto) db h =
    kind-AreTrusted db (accept_request user pk auto db).1
      (accept_found-IsKind (first_where (has_key pk) db.requests) user auto db) h
handle-AreTrusted (declined_by user pk) db h =
    kind-AreTrusted db (decline_request user pk db).1
      (decline_found-IsKind (first_where (has_key pk) db.requests) user db
        (λ r e. found_key pk db.requests r e))
      h
handle-AreTrusted (cancelled_by user pk) db h =
    kind-AreTrusted db (cancel_request user pk db).1
      (cancel_found-IsKind (first_where (has_key pk) db.requests) user db
        (λ r e. found_key pk db.requests r e))
      h
handle-AreTrusted (removed_by user other) db h = remove_friend-AreTrusted user other db h
handle-AreTrusted (shared user friend device_id) db h =
    create_share-AreTrusted user friend device_id db h
handle-AreTrusted (unshared user friend device_id) db h =
    destroy_share-AreTrusted user friend device_id db h

-- If every share is of a device with an owner, and with a friend of the owner, then so it is after
-- any sequence of sent, accepted, declined and cancelled friend requests, removals of friends and
-- shares made and taken back, by anybody and with any keys and texts.
pub run-AreTrusted :
    (actions : List Action) (db : Tables) → AreTrusted db → AreTrusted (run actions db)
unfolding run
run-AreTrusted [] db h = h
run-AreTrusted (a ∷ actions) db h =
    run-AreTrusted actions (handle a db).1 (handle-AreTrusted a db h)
