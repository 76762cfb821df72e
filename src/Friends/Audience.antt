-- ===== src/Friends/Audience.antt =====
-- Who may look at a device over HTTP, and who hears of it: app/views.py, app/ws_broadcast.py and
-- app/consumers.py.
use my_tracks.Base.{
  ℕ, Option, none, some, List, [], ◌∷◌, Bool, true, false, not, any, ◌||◌, compared_numbers, ◌≡◌,
  refl, sym, ap, subst, ◌∙◌, arith, Bool-cases, inl, inr, ◌↔◌,
}
use mathlib.Core.Option.{some-injective}
use my_tracks.Devices.{Device}
use my_tracks.Broadcasts.{Group, staff, user_ws_group, has_group, device_location_ws_groups}
use my_tracks.Broadcasts.Audience.{
  IsShared, MayHear, is_staff, is_owner, is_shared, device_location_ws_groups-MayHear,
}
use my_tracks.Friends.{without}
use my_tracks.Friends.Shares.{owner_is, is_share}
use my_tracks.Friends.Visible.{is_visible, visible_devices_for_user}

-- The group that the connection of a user joins: the staff's, or the user's own.
abbrev pub joined : Bool → ℕ → Group
joined true user = staff
joined false user = user_ws_group user

abbrev pub hears : Bool → ℕ → List (ℕ × ℕ) → Device → Bool
hears privileged user shares d =
    has_group (joined privileged user) (device_location_ws_groups d shares)

any-is_share :
    (device user : ℕ) (shares : List (ℕ × ℕ))
    → (any (is_share device user) shares ≡ true) ↔ IsShared device user shares
any-is_share device user [] = (λ e. cc, λ e. absurd e)
any-is_share device user ((d, u) ∷ shares) =
    let later = any-is_share device user shares in
    (
      λ e. elim (Bool-cases (is_share device user (d, u))) [
        | inl here ↦ inl (ground arith, ground arith)
        | inr there ↦ inr (later.0 (rw there at e))
      ],
      λ s. elim s [
        | inl (same_device, same_user) ↦ ground arith
        | inr there ↦ let found = later.1 there in ground arith
      ],
    )

owner_test : (user : ℕ) (owner : Option ℕ) → (owner_is user owner ≡ true) ↔ (owner ≡ some user)
owner_test user none = (λ e. cc, λ e. cc)
owner_test user (some owner) = (
  λ e. ap some ((compared_numbers.agree_iff owner user).0 e),
  λ e. (compared_numbers.agree_iff owner user).1 (some-injective _ _ e),
)

same_test : (a b : Bool) → (a ≡ true → b ≡ true) → (b ≡ true → a ≡ true) → a ≡ b
same_test true true f g = refl
same_test true false f g = sym (f refl)
same_test false true f g = g refl
same_test false false f g = refl

left_or : (a b : Bool) → a ≡ true → (a || b) ≡ true
left_or true b e = refl
left_or false b e = cc

right_or : (a b : Bool) → b ≡ true → (a || b) ≡ true
right_or true b e = refl
right_or false b e = e

hearer_visible :
    (device : Device) (user : ℕ) (shares : List (ℕ × ℕ)) (g : Group)
    → g ≡ user_ws_group user
    → MayHear device shares g
    → is_visible user shares device ≡ true
hearer_visible device user shares g e is_staff = cc
hearer_visible device user shares g e (is_owner u owned) =
    let same : u ≡ user = cc in
    left_or (owner_is user device.owner) (any (is_share device.pk user) shares)
      ((owner_test user device.owner).1 (owned ∙ ap some same))
hearer_visible device user shares g e (is_shared u shared) =
    let same : u ≡ user = cc in
    right_or (owner_is user device.owner) (any (is_share device.pk user) shares) (
      (any-is_share device.pk user shares).1 (subst (λ v. IsShared device.pk v shares) same shared))

visible_hearer :
    (device : Device) (user : ℕ) (shares : List (ℕ × ℕ))
    → is_visible user shares device ≡ true
    → MayHear device shares (user_ws_group user)
visible_hearer device user shares e = elim (Bool-cases (owner_is user device.owner)) [
  | inl owned ↦ is_owner user ((owner_test user device.owner).0 owned)
  | inr other ↦ is_shared user ((any-is_share device.pk user shares).0 (rw other at e))
]

hears-is_visible :
    (user : ℕ) (shares : List (ℕ × ℕ)) (device : Device)
    → is_visible user shares device ≡ hears false user shares device
hears-is_visible user shares device =
    let groups = (device_location_ws_groups-MayHear device shares).1 (user_ws_group user) in
    same_test (is_visible user shares device) (hears false user shares device)
      (λ e. groups.1 (visible_hearer device user shares e))
      (λ e. hearer_visible device user shares (user_ws_group user) refl (groups.0 e))

without_same :
    {A : Type 0} (p q : A → Bool)
    → ((x : A) → p x ≡ q x)
    → (xs : List A) → without p xs ≡ without q xs
without_same p q h [] = refl
without_same p q h (x ∷ xs) = rw (h x, without_same p q h xs) refl

without_none :
    {A : Type 0} (p : A → Bool) → ((x : A) → p x ≡ false) → (xs : List A) → xs ≡ without p xs
without_none p h [] = refl
without_none p h (x ∷ xs) = rw (h x) (ap (λ ys. x ∷ ys) (without_none p h xs))

-- For every user, staff or not, and every table of devices and of shares: the devices that the user
-- may look at over HTTP are, in the table's order, exactly those whose messages go to the group that
-- the user's connection joins.
pub visible_devices_for_user-hears :
    (privileged : Bool) (user : ℕ) (devices : List Device) (shares : List (ℕ × ℕ))
    → visible_devices_for_user privileged user devices shares
      ≡ without (λ d. not (hears privileged user shares d)) devices
unfolding visible_devices_for_user
visible_devices_for_user-hears true user devices shares =
    without_none (λ d. not (hears true user shares d))
      (λ d. ap not (((device_location_ws_groups-MayHear d shares).1 staff).1 is_staff)) devices
visible_devices_for_user-hears false user devices shares =
    without_same (λ d. not (is_visible user shares d)) (λ d. not (hears false user shares d))
      (λ d. ap not (hears-is_visible user shares d)) devices
