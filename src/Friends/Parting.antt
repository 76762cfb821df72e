-- ===== src/Friends/Parting.antt =====
-- What is left between two friends who part: FriendViewSet.destroy of app/views.py.
use my_tracks.Base.{
  ℕ, List, [], ◌∷◌, Bool, true, false, not, any, compared_numbers, ◌≡◌, refl, arith, if-cases,
  Bool-cases, inl, inr,
}
use my_tracks.Friends.{Tables, Reply, without, befriends, are_friends}
use my_tracks.Friends.Shares.{shared_by, has_pk, parted, remove_friend}

pub any_gone :
    {A : Type 0} (q p : A → Bool)
    → ((x : A) → q x ≡ true → p x ≡ true)
    → (xs : List A) → any q (without p xs) ≡ false
any_gone q p h [] = refl
any_gone q p h (x ∷ xs) =
    if-cases (λ r. any q r ≡ false) (p x) (λ _. any_gone q p h xs)
      (λ out. elim (Bool-cases (q x)) [
        | inl e ↦ let wrong = h x e in cc
        | inr e ↦ rw e (any_gone q p h xs)
      ])

pub without_rest :
    {A : Type 0} (q p : A → Bool) (xs : List A) → any q xs ≡ false → any q (without p xs) ≡ false
without_rest q p [] e = e
without_rest q p (x ∷ xs) e =
    let rest = without_rest q p xs (ground arith) in
    if-cases (λ r. any q r ≡ false) (p x) (λ _. rest) (λ _. ground arith)

module _ (user other : ℕ) (db : Tables) where
  -- No friendship and no share is left between the two, in either direction.
  pub record Parted (after : Tables) : Type 0 where
    pub strangers : are_friends user other after.requests ≡ false
    pub other_strangers : are_friends other user after.requests ≡ false
    pub shares_gone : any (shared_by user other after.devices) after.shares ≡ false
    pub other_shares_gone : any (shared_by other user after.devices) after.shares ≡ false

  pub data Removal : Reply → Type 0 where
    unknown_user : any (has_pk other) db.users ≡ false → Removal (404, db)
    no_friend : are_friends user other db.requests ≡ false → Removal (404, db)
    removed :
        (after : Tables)
        → are_friends user other db.requests ≡ true
        → Parted after
        → Removal (204, after)

  parted-Parted : Parted (parted user other db)
  unfolding are_friends
  parted-Parted = record {
    strangers = any_gone (befriends user other) (befriends user other) (λ r e. e) db.requests;
    other_strangers =
        any_gone (befriends other user) (befriends user other) (λ r e. ground arith) db.requests;
    shares_gone =
        without_rest (shared_by user other db.devices) (shared_by other user db.devices)
          (without (shared_by user other db.devices) db.shares)
          (any_gone (shared_by user other db.devices) (shared_by user other db.devices) (λ s e. e)
            db.shares);
    other_shares_gone =
        any_gone (shared_by other user db.devices) (shared_by other user db.devices) (λ s e. e)
          (without (shared_by user other db.devices) db.shares);
  }

  -- Removing a friend answers 404 and changes nothing if there is no such user or no accepted
  -- request between the two; else it answers 204, and no accepted request between them is left, and
  -- no share of a device of the one with the other, in either direction.
  pub remove_friend-Removal : Removal (remove_friend user other db)
  unfolding remove_friend
  remove_friend-Removal =
      if-cases Removal (not (any (has_pk other) db.users)) (λ absent. unknown_user (ground arith))
        (λ _.
          if-cases Removal (are_friends user other db.requests)
            (λ friends. removed (parted user other db) friends parted-Parted)
            (λ strangers. no_friend strangers))
