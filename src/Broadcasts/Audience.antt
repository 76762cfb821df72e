-- ===== src/Broadcasts/Audience.antt =====
-- The audience of a device: app/ws_broadcast.py (device_location_ws_groups).
use my_tracks.Base.{
  ℕ, Option, none, some, List, [], ◌∷◌, Bool, true, false, ◌==◌, compared_numbers, if◌then◌else◌,
  ◌≡◌, refl, sym, ap, ◌∙◌, subst, inl, inr, ◌⊎◌, ◌↔◌, Bool-cases, if-cases, if-cases,
}
use mathlib.Core.Option.{some-injective}
use my_tracks.Devices.{Device}
use my_tracks.Broadcasts.{
  Group, staff, user_ws_group, same_group, has_group, add_group, add_shares, owner_groups,
  device_location_ws_groups,
}

-- A row of DeviceShare for the two.
abbrev pub IsShared : ℕ → ℕ → List (ℕ × ℕ) → Type 0
IsShared device user [] = ⊥
IsShared device user ((shared, with_user) ∷ shares) =
    ((shared ≡ device) × (with_user ≡ user)) ⊎ IsShared device user shares

-- Staff, the owner, and those with whom the device is shared.
pub data MayHear (device : Device) (shares : List (ℕ × ℕ)) : Group → Type 0 where
  is_staff : MayHear device shares staff
  is_owner : (user : ℕ) → device.owner ≡ some user → MayHear device shares (user_ws_group user)
  is_shared :
      (user : ℕ) → IsShared device.pk user shares → MayHear device shares (user_ws_group user)

same_group_iff : (g h : Group) → (same_group g h ≡ true) ↔ (g ≡ h)
same_group_iff staff staff = (λ _. refl, λ _. refl)
same_group_iff staff (user_ws_group _) = (λ e. cc, λ e. cc)
same_group_iff (user_ws_group _) staff = (λ e. cc, λ e. cc)
same_group_iff (user_ws_group m) (user_ws_group n) = (
  λ e. ap user_ws_group ((compared_numbers.agree_iff m n).0 e),
  λ e. (compared_numbers.agree_iff m n).1 (cc),
)

has_group-cons :
    (g h : Group) (groups : List Group)
    → has_group g (h ∷ groups) ≡ true
    → (h ≡ g) ⊎ (has_group g groups ≡ true)
unfolding has_group
has_group-cons g h groups e = elim (Bool-cases (same_group h g)) [
  | inl same ↦ inl ((same_group_iff h g).0 same)
  | inr other ↦ inr (rw other at e)
]

has_group_head : (g : Group) (groups : List Group) → has_group g (g ∷ groups) ≡ true
unfolding has_group
has_group_head g groups = rw ((same_group_iff g g).1 refl) refl

has_group-cons_self : (h g : Group) (groups : List Group) → h ≡ g → has_group g (h ∷ groups) ≡ true
has_group-cons_self h g groups same =
    subst (λ x. has_group x (h ∷ groups) ≡ true) same (has_group_head h groups)

has_group_tail :
    (g h : Group) (groups : List Group)
    → has_group g groups ≡ true
    → has_group g (h ∷ groups) ≡ true
unfolding has_group
has_group_tail g h groups e = elim (Bool-cases (same_group h g)) [
  | inl same ↦ rw same refl
  | inr other ↦ rw other e
]

-- Adding puts in the group, keeps the others and nothing else.
has_group-add_group :
    (g h : Group) (groups : List Group)
    → (has_group g (add_group h groups) ≡ true) ↔ ((h ≡ g) ⊎ (has_group g groups ≡ true))
has_group-add_group g h groups = (forward (has_group h groups) refl, back (has_group h groups) refl)
  where
    forward :
        (b : Bool)
        → has_group h groups ≡ b
        → has_group g (if b then groups else h ∷ groups) ≡ true
        → (h ≡ g) ⊎ (has_group g groups ≡ true)
    forward true e found = inr found
    forward false e found = has_group-cons g h groups found

    back :
        (b : Bool)
        → has_group h groups ≡ b
        → (h ≡ g) ⊎ (has_group g groups ≡ true)
        → has_group g (if b then groups else h ∷ groups) ≡ true
    back true e (inl same) = subst (λ x. has_group x groups ≡ true) same e
    back true e (inr found) = found
    back false e (inl same) =
        subst (λ x. has_group x (h ∷ groups) ≡ true) same (has_group_head h groups)
    back false e (inr found) = has_group_tail g h groups found

-- No group stands twice.
abbrev pub IsDistinct : List Group → Type 0
IsDistinct [] = Unit
IsDistinct (g ∷ groups) = (has_group g groups ≡ false) × IsDistinct groups

add_group-IsDistinct :
    (h : Group) (groups : List Group) → IsDistinct groups → IsDistinct (add_group h groups)
add_group-IsDistinct h groups distinct = added (has_group h groups) refl
  where
    added : (b : Bool) → has_group h groups ≡ b → IsDistinct (if b then groups else h ∷ groups)
    added true e = distinct
    added false e = (e, distinct)

-- The groups of the users that a list of shares names for a device.
abbrev Named : ℕ → List (ℕ × ℕ) → Group → Type 0
Named device shares g = (user : ℕ) × (g ≡ user_ws_group user) × IsShared device user shares

module _ (device : ℕ) where
  add_shares-IsDistinct :
      (shares : List (ℕ × ℕ)) (groups : List Group)
      → IsDistinct groups
      → IsDistinct (add_shares device shares groups)
  unfolding add_shares
  add_shares-IsDistinct [] groups distinct = distinct
  add_shares-IsDistinct ((shared, user) ∷ shares) groups distinct = add_shares-IsDistinct shares _ (
      if-cases IsDistinct (shared == device)
        (λ _. add_group-IsDistinct (user_ws_group user) groups distinct) (λ _. distinct))

  module _ (g : Group) where
    -- One share.
    one_share :
        (shared user : ℕ) (groups : List Group)
        → (has_group g (if shared == device then add_group (user_ws_group user) groups else groups)
            ≡ true)
          ↔ (((shared ≡ device) × (g ≡ user_ws_group user)) ⊎ (has_group g groups ≡ true))
    one_share shared user groups = shown (shared == device) refl
      where
        shown :
            (b : Bool)
            → (shared == device) ≡ b
            → (has_group g (if b then add_group (user_ws_group user) groups else groups) ≡ true)
              ↔ (((shared ≡ device) × (g ≡ user_ws_group user)) ⊎ (has_group g groups ≡ true))
        shown true e = (
          λ found. elim ((has_group-add_group g (user_ws_group user) groups).0 found) [
            | inl same ↦ inl ((compared_numbers.agree_iff shared device).0 e, sym same)
            | inr there ↦ inr there
          ],
          λ h.
              (has_group-add_group g (user_ws_group user) groups).1
                (elim h [ inl own ↦ inl (sym own.1) | inr there ↦ inr there ]),
        )
        shown false e = (
          λ found. inr found,
          λ h. elim h [
            | inl own ↦
                absurd
                  (let wrong = sym e ∙ (compared_numbers.agree_iff shared device).1 own.0 in cc)
            | inr there ↦ there
          ],
        )

    has_group-add_shares :
        (shares : List (ℕ × ℕ)) (groups : List Group)
        → (has_group g (add_shares device shares groups) ≡ true)
          ↔ (Named device shares g ⊎ (has_group g groups ≡ true))
    unfolding add_shares
    has_group-add_shares [] groups =
        (λ found. inr found, λ h. elim h [ inl n ↦ absurd n.2 | inr found ↦ found ])
    has_group-add_shares ((shared, user) ∷ shares) groups =
        let rest =
          has_group-add_shares shares
            (if shared == device then add_group (user_ws_group user) groups else groups) in
        let one = one_share shared user groups in
        (
          λ found. elim (rest.0 found) [
            | inl n ↦ inl (n.0, n.1, inr n.2)
            | inr more ↦ elim (one.0 more) [
              | inl own ↦ inl (user, own.1, inl (own.0, refl))
              | inr old ↦ inr old
            ]
          ],
          λ h. rest.1 (elim h [
            | inl n ↦ elim (n.2) [
              | inl own ↦ inr (one.1 (inl (own.0, n.1 ∙ ap user_ws_group (sym own.1))))
              | inr later ↦ inl (n.0, n.1, later)
            ]
            | inr old ↦ inr (one.1 (inr old))
          ]),
        )

module _ (device : Device) (shares : List (ℕ × ℕ)) where
  owner_groups-IsDistinct : (o : Option ℕ) → IsDistinct (owner_groups o)
  unfolding has_group
  owner_groups-IsDistinct none = (refl, tt)
  owner_groups-IsDistinct (some owner) = (refl, (refl, tt))

  owner_groups-MayHear :
      (o : Option ℕ) (g : Group)
      → device.owner ≡ o
      → has_group g (owner_groups o) ≡ true
      → MayHear device shares g
  unfolding has_group
  owner_groups-MayHear none staff e found = is_staff
  owner_groups-MayHear none (user_ws_group n) e found = absurd (let wrong = found in cc)
  owner_groups-MayHear (some owner) staff e found = is_staff
  owner_groups-MayHear (some owner) (user_ws_group n) e found = elim (Bool-cases (owner == n)) [
    | inl same ↦ is_owner n (e ∙ ap some ((compared_numbers.agree_iff owner n).0 same))
    | inr other ↦ absurd (let wrong : false ≡ true = rw other at found in cc)
  ]

  MayHear-has_group :
      (o : Option ℕ) (g : Group)
      → device.owner ≡ o
      → MayHear device shares g
      → Named device.pk shares g ⊎ (has_group g (owner_groups o) ≡ true)
  unfolding has_group
  MayHear-has_group none g e is_staff = inr refl
  MayHear-has_group (some owner) g e is_staff = inr refl
  MayHear-has_group none g e (is_owner n own) = absurd (let wrong = sym e ∙ own in cc)
  MayHear-has_group (some owner) g e (is_owner n own) = inr (
      has_group-cons_self (user_ws_group owner) (user_ws_group n) (staff ∷ [])
        (ap user_ws_group (some-injective _ _ (sym e ∙ own))))
  MayHear-has_group o g e (is_shared n row) = inl (n, refl, row)

pub device_location_ws_groups-MayHear :
    (device : Device) (shares : List (ℕ × ℕ))
    → IsDistinct (device_location_ws_groups device shares)
      × ((g : Group)
          → (has_group g (device_location_ws_groups device shares) ≡ true)
            ↔ MayHear device shares g)
unfolding device_location_ws_groups
device_location_ws_groups-MayHear device shares = (
  add_shares-IsDistinct device.pk shares _ (owner_groups-IsDistinct device shares device.owner),
  λ g.
      let sent = has_group-add_shares device.pk g shares (owner_groups device.owner) in
      (
        λ found. elim (sent.0 found) [
          | inl n ↦ subst (MayHear device shares) (sym n.1) (is_shared n.0 n.2)
          | inr old ↦ owner_groups-MayHear device shares device.owner g refl old
        ],
        λ h. sent.1 (MayHear-has_group device shares device.owner g refl h),
      ),
)
