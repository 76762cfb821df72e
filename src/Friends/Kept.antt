-- ===== src/Friends/Kept.antt =====
-- Accepted requests in the table of FriendRequest, and its changes.
use my_tracks.Base.{
  ℕ, some, List, [], ◌∷◌, All, Bool, true, false, any, ◌&&◌, ◌||◌, compared_numbers, compared_texts,
  ◌≡◌, refl, sym, subst, arith, if-cases, Bool-cases, inl, inr,
}
use mathlib.Core.Option.{some-injective}
use my_tracks.Friends.{
  RequestStatus, pending, accepted, declined, is_pending, is_accepted, is_declined, FriendRequest,
  without, sends, befriends, first_where, has_key, save, delete, reciprocal, each,
}

-- What a deletion keeps, and what a row gives for all rows.
module _ {A : Type 0} where
  pub any-without :
      (f p : A → Bool)
      → ((x : A) → f x ≡ true → p x ≡ false)
      → (xs : List A) → any f xs ≡ true
      → any f (without p xs) ≡ true
  any-without f p h [] e = e
  any-without f p h (x ∷ xs) e = elim (Bool-cases (f x)) [
    | inl here ↦ rw (h x here, here) refl
    | inr there ↦
        let later = any-without f p h xs (ground arith) in
        if-cases (λ r. any f r ≡ true) (p x) (λ _. later) (λ _. rw there later)
  ]

  pub without-All : (P : A → Type 0) (p : A → Bool) (xs : List A) → All P xs → All P (without p xs)
  without-All P p [] h = h
  without-All P p (x ∷ xs) (px, h) =
      if-cases (All P) (p x) (λ _. without-All P p xs h) (λ _. (px, without-All P p xs h))

  pub map-All : (P Q : A → Type 0) → ((x : A) → P x → Q x) → (xs : List A) → All P xs → All Q xs
  map-All P Q f [] h = h
  map-All P Q f (x ∷ xs) (px, h) = (f x px, map-All P Q f xs h)

-- Friends of one table are friends of the other.
abbrev pub Keeps : List FriendRequest → List FriendRequest → Type 0
Keeps rows after = (a b : ℕ) → any (befriends a b) rows ≡ true → any (befriends a b) after ≡ true

drop_test : (c s later : Bool) → (c && s || later) ≡ true → (s || later) ≡ true
drop_test true s later e = e
drop_test false true later e = refl
drop_test false false later e = e

pub or_later : (here x y : Bool) → (x ≡ true → y ≡ true) → (here || x) ≡ true → (here || y) ≡ true
or_later true x y h e = refl
or_later false x y h e = h e

pub save_accepted-Keeps : (pk : ℕ) (rows : List FriendRequest) → Keeps rows (save pk accepted rows)
save_accepted-Keeps pk [] a b e = e
save_accepted-Keeps pk (r ∷ rows) a b e =
    if-cases (λ s. any (befriends a b) s ≡ true) (has_key pk r)
      (λ _.
        drop_test (is_accepted r.status) (sends a b r || sends b a r) (any (befriends a b) rows) e)
      (λ _.
        or_later (befriends a b r) (any (befriends a b) rows)
          (any (befriends a b) (save pk accepted rows)) (save_accepted-Keeps pk rows a b) e)

pending_stranger :
    (a b : ℕ) (r : FriendRequest) → is_pending r.status ≡ true → befriends a b r ≡ false
pending_stranger a b r e = go r.status e
  where
    go :
        (status : RequestStatus)
        → is_pending status ≡ true
        → (is_accepted status && (sends a b r || sends b a r)) ≡ false
    go pending e = refl
    go accepted e = cc
    go declined e = refl

waiting :
    (r : FriendRequest) (found : FriendRequest)
    → some r ≡ some found
    → is_pending found.status ≡ true
    → is_pending r.status ≡ true
waiting r found e h = subst (λ x. is_pending x.status ≡ true) (sym (some-injective _ _ e)) h

module _ (pk : ℕ) (found : FriendRequest) (found_pending : is_pending found.status ≡ true) where
  pub save_declined-Keeps :
      (rows : List FriendRequest)
      → first_where (has_key pk) rows ≡ some found
      → Keeps rows (save pk declined rows)
  save_declined-Keeps [] e a b h = h
  save_declined-Keeps (r ∷ rows) e a b h = elim (Bool-cases (has_key pk r)) [
    | inl here ↦
        let stranger = pending_stranger a b r (waiting r found (rw here at e) found_pending) in
        rw here (rw stranger at h)
    | inr there ↦ rw there (
        or_later (befriends a b r) (any (befriends a b) rows)
          (any (befriends a b) (save pk declined rows))
          (save_declined-Keeps rows (rw there at e) a b) h)
  ]

  pub delete-Keeps :
      (rows : List FriendRequest)
      → first_where (has_key pk) rows ≡ some found
      → Keeps rows (delete pk rows)
  delete-Keeps [] e a b h = h
  delete-Keeps (r ∷ rows) e a b h = elim (Bool-cases (has_key pk r)) [
    | inl here ↦
        let stranger = pending_stranger a b r (waiting r found (rw here at e) found_pending) in
        rw here (rw stranger at h)
    | inr there ↦ rw there (
        or_later (befriends a b r) (any (befriends a b) rows) (any (befriends a b) (delete pk rows))
          (delete-Keeps rows (rw there at e) a b) h)
  ]

pub without_declined-Keeps :
    (user target : ℕ) (rows : List FriendRequest)
    → Keeps rows (without (λ r. sends user target r && is_declined r.status) rows)
without_declined-Keeps user target rows a b e =
    any-without (befriends a b) (λ r. sends user target r && is_declined r.status)
      (λ r. go (sends user target r) (sends a b r || sends b a r) r.status) rows e
  where
    go :
        (s f : Bool) (status : RequestStatus)
        → (is_accepted status && f) ≡ true
        → (s && is_declined status) ≡ false
    go s f pending e = cc
    go true f accepted e = refl
    go false f accepted e = refl
    go s f declined e = cc

pub reciprocal-Keeps :
    (user other : ℕ) (rows : List FriendRequest) → Keeps rows (each (reciprocal user other) rows)
reciprocal-Keeps user other [] a b e = e
reciprocal-Keeps user other (r ∷ rows) a b e =
    let later = reciprocal-Keeps user other rows a b in
    if-cases
      (λ q. (befriends a b q || any (befriends a b) (each (reciprocal user other) rows)) ≡ true)
      (sends user other r)
      (λ _.
        or_later (sends a b r || sends b a r) (any (befriends a b) rows)
          (any (befriends a b) (each (reciprocal user other) rows)) later
          (drop_test (is_accepted r.status) (sends a b r || sends b a r) (any (befriends a b) rows)
            e))
      (λ _.
        or_later (befriends a b r) (any (befriends a b) rows)
          (any (befriends a b) (each (reciprocal user other) rows)) later e)

pub first_where_test :
    {A : Type 0} (p : A → Bool) (xs : List A) (found : A)
    → first_where p xs ≡ some found
    → p found ≡ true
first_where_test p [] found e = cc
first_where_test p (x ∷ xs) found e = elim (Bool-cases (p x)) [
  | inl here ↦ subst (λ y. p y ≡ true) (some-injective _ _ (rw here at e)) here
  | inr there ↦ first_where_test p xs found (rw there at e)
]

pub found_key :
    (pk : ℕ) (rows : List FriendRequest) (found : FriendRequest)
    → first_where (has_key pk) rows ≡ some found
    → first_where (has_key found.pk) rows ≡ some found
found_key pk rows found e =
    subst (λ k. first_where (has_key k) rows ≡ some found)
      (sym
        ((compared_numbers.agree_iff found.pk pk).0 (first_where_test (has_key pk) rows found e)))
      e
