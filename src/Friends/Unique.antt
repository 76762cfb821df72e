-- ===== src/Friends/Unique.antt =====
-- Senders and receivers in the table of FriendRequest of app/models.py, and its changes.
use my_tracks.Base.{
  ℕ, List, [], ◌∷◌, Bool, true, false, any, ◌&&◌, ◌||◌, compared_numbers, compared_texts, ◌≡◌, refl,
  arith, if-cases,
}
use my_tracks.Friends.{
  RequestStatus, pending, accepted, declined, is_pending, is_accepted, is_declined, FriendRequest,
  without, sends, befriends, has_key, save, delete, waits, reciprocal, each,
}
use my_tracks.Friends.Parting.{without_rest}

-- No two rows have one sender and one receiver.
abbrev pub AreUnique : List FriendRequest → Type 0
AreUnique [] = Unit
AreUnique (r ∷ rows) = (any (sends r.from_user r.to_user) rows ≡ false) × AreUnique rows

save_pairs :
    (a b pk : ℕ) (status : RequestStatus) (rows : List FriendRequest)
    → any (sends a b) (save pk status rows) ≡ any (sends a b) rows
save_pairs a b pk status [] = refl
save_pairs a b pk status (r ∷ rows) =
    let later = save_pairs a b pk status rows in
    if-cases (λ s. any (sends a b) s ≡ any (sends a b) (r ∷ rows)) (has_key pk r) (λ _. refl)
      (λ _. rw later refl)

pub save-AreUnique :
    (pk : ℕ) (status : RequestStatus) (rows : List FriendRequest)
    → AreUnique rows
    → AreUnique (save pk status rows)
save-AreUnique pk status [] h = h
save-AreUnique pk status (r ∷ rows) (first, h) =
    if-cases AreUnique (has_key pk r) (λ _. (first, h))
      (λ _. (
        rw (save_pairs r.from_user r.to_user pk status rows) first,
        save-AreUnique pk status rows h,
      ))

each_pairs :
    (a b user other : ℕ) (rows : List FriendRequest)
    → any (sends a b) (each (reciprocal user other) rows) ≡ any (sends a b) rows
each_pairs a b user other [] = refl
each_pairs a b user other (r ∷ rows) =
    let later = each_pairs a b user other rows in
    if-cases
      (λ q.
        (sends a b q || any (sends a b) (each (reciprocal user other) rows))
        ≡ any (sends a b) (r ∷ rows))
      (sends user other r) (λ _. rw later refl) (λ _. rw later refl)

pub each-AreUnique :
    (user other : ℕ) (rows : List FriendRequest)
    → AreUnique rows
    → AreUnique (each (reciprocal user other) rows)
each-AreUnique user other [] h = h
each-AreUnique user other (r ∷ rows) (first, h) =
    if-cases {A = FriendRequest}
      (λ q.
        (any (sends q.from_user q.to_user) (each (reciprocal user other) rows) ≡ false)
        × AreUnique (each (reciprocal user other) rows))
      (sends user other r)
      (λ _. (
        rw (each_pairs r.from_user r.to_user user other rows) first,
        each-AreUnique user other rows h,
      ))
      (λ _. (
        rw (each_pairs r.from_user r.to_user user other rows) first,
        each-AreUnique user other rows h,
      ))

pub without-AreUnique :
    (p : FriendRequest → Bool) (rows : List FriendRequest)
    → AreUnique rows
    → AreUnique (without p rows)
without-AreUnique p [] h = h
without-AreUnique p (r ∷ rows) (first, h) =
    if-cases AreUnique (p r) (λ _. without-AreUnique p rows h)
      (λ _. (without_rest (sends r.from_user r.to_user) p rows first, without-AreUnique p rows h))

delete_rest :
    (a b pk : ℕ) (rows : List FriendRequest)
    → any (sends a b) rows ≡ false
    → any (sends a b) (delete pk rows) ≡ false
delete_rest a b pk [] e = e
delete_rest a b pk (r ∷ rows) e =
    let later = delete_rest a b pk rows (ground arith) in
    if-cases (λ s. any (sends a b) s ≡ false) (has_key pk r) (λ _. ground arith) (λ _. ground arith)

pub delete-AreUnique :
    (pk : ℕ) (rows : List FriendRequest) → AreUnique rows → AreUnique (delete pk rows)
delete-AreUnique pk [] h = h
delete-AreUnique pk (r ∷ rows) (first, h) =
    if-cases AreUnique (has_key pk r) (λ _. h)
      (λ _. (delete_rest r.from_user r.to_user pk rows first, delete-AreUnique pk rows h))

answered :
    (s t x y z : Bool) (status : RequestStatus)
    → (s && is_declined status || x) ≡ false
    → (is_accepted status && (s || t) || y) ≡ false
    → (s && is_pending status || z) ≡ false
    → (s || false) ≡ false
answered false t x y z status d a w = refl
answered true t x y z pending d a w = cc
answered true t x y z accepted d a w = cc
answered true t x y z declined d a w = cc

-- A request that is neither declined nor accepted nor waiting is none.
pub no_request :
    (user target : ℕ) (rows : List FriendRequest)
    → any (λ r. sends user target r && is_declined r.status) rows ≡ false
    → any (befriends user target) rows ≡ false
    → any (waits user target) rows ≡ false
    → any (sends user target) rows ≡ false
no_request user target [] d a w = refl
no_request user target (r ∷ rows) d a w =
    let later = no_request user target rows (ground arith) (ground arith) (ground arith) in
    rw later (
      answered (sends user target r) (sends target user r)
        (any (λ q. sends user target q && is_declined q.status) rows)
        (any (befriends user target) rows) (any (waits user target) rows) r.status d a w)
