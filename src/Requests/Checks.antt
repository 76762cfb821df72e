-- ===== src/Requests/Checks.antt =====
-- The checks that a location request makes before it publishes: its reason, its user, its devices and
-- the cooldown of the user.
use my_tracks.Base.{
  ℕ, ◌+◌, ◌≤◌, ◌<◌, String, none, some, List, [], ◌∷◌, true, false, compared_texts,
  compared_numbers, leb, ◌≡◌, ◌≢◌, refl, arith, inl, inr, ◌⊎◌, Bool-cases, Option-cases,
}
use my_tracks.Text.{strip}
use my_tracks.Requests.{
  Account, Device, is_valid_reason, validate_reason, find_active, active_user, user_cooldown_error,
  reserve_user_cooldown, require_devices,
}
use my_tracks.Requests.Settings.{user_cooldown_end, record_location_request}
use my_tracks.Requests.Effects.{
  World, invalid_reason, unknown_user, no_owned_devices, Outcome, ok, raised, error,
}

-- No cooldown that has not ended yet holds the user's requests for this reason back.
abbrev pub IsIdle : World → String → String → Type 0
IsIdle w user_id reason =
    (user_cooldown_end w.row user_id reason ≡ none)
    ⊎ ((end : ℕ) × (user_cooldown_end w.row user_id reason ≡ some end) × (end ≤ w.clock w.readings))

pub data Reserved (user_id reason : String) (w : World) : Outcome ℕ → World → Type 0 where
  busy :
      {w' : World} (end : ℕ)
      → user_cooldown_end w.row user_id reason ≡ some end
      → w.clock w.readings < end
      → w'.row ≡ w.row
      → w'.wire ≡ w.wire
      → Reserved user_id reason w (raised (user_cooldown_error w.row end)) w'
  reserved :
      {w' : World} (t reading : ℕ)
      → t ≡ w.clock reading
      → w.readings ≤ reading
      → IsIdle w user_id reason
      → w'.row ≡ record_location_request w.row user_id t
      → w'.wire ≡ w.wire
      → Reserved user_id reason w (ok t) w'

pub reserve_user_cooldown-Reserved :
    (user_id reason : String) (w : World)
    → Reserved user_id reason w
        (reserve_user_cooldown user_id reason w).0
        (reserve_user_cooldown user_id reason w).1
unfolding reserve_user_cooldown
reserve_user_cooldown-Reserved user_id reason w =
    elim (Option-cases (user_cooldown_end w.row user_id reason)) [
      | inl free ↦ rw free (reserved _ w.readings refl (omega arith) (inl free) refl refl)
      | inr (end, held) ↦ elim (Bool-cases (leb end (w.clock w.readings))) [
        | inl over ↦
            rw (held, over)
              (reserved _ (w.readings + 1) refl (omega arith) (inr (end, held, ground arith)) refl
                refl)
        | inr on ↦ rw (held, on) (busy end held (ground arith) refl refl)
      ]
    ]

module _ (reason : String) (w : World) where
  pub validate_reason-true : is_valid_reason reason ≡ true → validate_reason reason w ≡ (ok tt, w)
  unfolding validate_reason
  validate_reason-true e = rw e refl

  pub validate_reason-false :
      is_valid_reason reason ≡ false
      → validate_reason reason w ≡ (raised (error (invalid_reason reason) 400), w)
  unfolding validate_reason
  validate_reason-false e = rw e refl

module _ (accounts : List Account) (user_id : String) (w : World) where
  pub active_user-some :
      (user : Account)
      → find_active accounts (strip user_id) ≡ some user
      → active_user accounts user_id w ≡ (ok user, w)
  unfolding active_user
  active_user-some user e = rw (e, active_user) refl

  pub active_user-none :
      find_active accounts (strip user_id) ≡ none
      → active_user accounts user_id w ≡ (raised (error (unknown_user (strip user_id)) 404), w)
  unfolding active_user
  active_user-none e = rw (e, active_user) refl

pub require_devices_some :
    (user : Account) (devices : List Device) (w : World)
    → devices ≢ []
    → require_devices user devices w ≡ (ok devices, w)
require_devices_some user [] w h = absurd (h refl)
require_devices_some user (d ∷ ds) w h = refl

pub require_devices_none :
    (user : Account) (devices : List Device) (w : World)
    → devices ≡ []
    → require_devices user devices w ≡ (raised (error (no_owned_devices user.username) 404), w)
require_devices_none user [] w h = refl
require_devices_none user (d ∷ ds) w h = cc
