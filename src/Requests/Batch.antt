-- ===== src/Requests/Batch.antt =====
-- What `request_all_devices_location` does on every path.
use my_tracks.Base.{
  ℕ, ◌+◌, ◌≤◌, String, none, some, List, [], ◌++◌, map, true, ◌==◌, compared_texts,
  compared_numbers, if◌then◌else◌, ◌≡◌, ◌≢◌, refl, arith, ap, ◌∙◌, inl, inr, eq_iff, Bool-cases,
  Option-cases, List-cases,
}
use my_tracks.Base.Table.{get, put, get-put, get-pop}
use my_tracks.Text.{strip}
use my_tracks.Commands.{Publication}
use my_tracks.Requests.{
  Account, mqtt_device_id_for_device, is_valid_reason, find_active, user_cooldown_error,
  reserve_user_cooldown, publish_each, BatchResult, require_devices, request_all_devices_location,
}
use my_tracks.Requests.Settings.{
  Config, at, seconds, user_cooldown_seconds_for_reason, record_location_request,
  clear_location_request,
}
use my_tracks.Requests.Effects.{
  World, RequestError, Outcome, ok, raised, Request, and_then, ◌>>=◌, return, restore, except,
}
use my_tracks.Requests.Checks.{
  IsIdle, Reserved, busy, reserved, reserve_user_cooldown-Reserved, validate_reason-true,
  validate_reason-false, active_user-some, active_user-none, require_devices_some,
  require_devices_none,
}
use my_tracks.Requests.Fanout.{Reports, Fanout, all_sent, cut_short, publish_each-Fanout}

-- The statuses with which a request is refused before anything is written or published.
pub data IsRefusal : ℕ → Type 0 where
  bad_request : IsRefusal 400
  not_found : IsRefusal 404
  conflict : IsRefusal 409

pub data BatchEffect (accounts : List Account) (config : Config) (user_id reason : String)
    (w : World) : Outcome BatchResult → World → Type 0 where
  refused :
      {w' : World} (e : RequestError)
      → IsRefusal e.status_code
      → w'.row ≡ w.row
      → w'.wire ≡ w.wire
      → BatchEffect accounts config user_id reason w (raised e) w'
  fulfilled :
      {w' : World} (user : Account) (t reading : ℕ) (ps : List Publication)
      → t ≡ w.clock reading
      → w.readings ≤ reading
      → is_valid_reason reason ≡ true
      → find_active accounts (strip user_id) ≡ some user
      → user.devices ≢ []
      → IsIdle w user.username reason
      → Reports (map (mqtt_device_id_for_device user) user.devices) ps
      → w'.wire.published ≡ w.wire.published ++ ps
      → ((other : String)
          → get w'.row.last_by_user other
            ≡ (if user.username == other then some (at t) else get w.row.last_by_user other))
      → BatchEffect accounts config user_id reason w
          (ok (record {
            user_id = user.username;
            device_ids = map (mqtt_device_id_for_device user) user.devices;
            requested_at = t;
            cooldown_until = t + seconds (user_cooldown_seconds_for_reason config reason);
            reason = reason;
          }))
          w'
  failed :
      {w' : World} (user : Account) (e : RequestError) (done left : List String)
      (ps : List Publication)
      → e.status_code ≡ 503
      → find_active accounts (strip user_id) ≡ some user
      → IsIdle w user.username reason
      → map (mqtt_device_id_for_device user) user.devices ≡ done ++ left
      → left ≢ []
      → Reports done ps
      → w'.wire.published ≡ w.wire.published ++ ps
      → ((other : String)
          → get w'.row.last_by_user other
            ≡ (if user.username == other then none else get w.row.last_by_user other))
      → BatchEffect accounts config user_id reason w (raised e) w'

module _ (accounts : List Account) (config : Config) (user_id reason : String) (w : World)
    (valid : is_valid_reason reason ≡ true) (user : Account)
    (found : find_active accounts (strip user_id) ≡ some user) (devices : user.devices ≢ []) where
  abbrev ids : List String
  ids = map (mqtt_device_id_for_device user) user.devices

  abbrev result : ℕ → BatchResult
  result t = record {
    user_id = user.username;
    device_ids = ids;
    requested_at = t;
    cooldown_until = t + seconds (user_cooldown_seconds_for_reason config reason);
    reason = reason;
  }

  abbrev settle : ℕ → Outcome Config × World → Outcome BatchResult × World
  settle t out =
      and_then (λ _. return (result t))
        (restore (λ row. clear_location_request row user.username t) out)

  -- Clearing the reservation that was just made removes the user's stamp.
  cleared :
      (t : ℕ) (row : Config)
      → row.last_by_user ≡ put w.row.last_by_user user.username (at t)
      → (other : String)
      → get (clear_location_request row user.username t).last_by_user other
        ≡ (if user.username == other then none else get w.row.last_by_user other)
  unfolding clear_location_request
  cleared t row same other =
      let self = (eq_iff user.username user.username).1 refl in
      let held : get (put w.row.last_by_user user.username (at t)) user.username ≡ some (at t) =
        rw (get-put w.row.last_by_user user.username user.username (at t), self) refl in
      let number = (compared_numbers.agree_iff t t).1 refl in
      rw
        (
          same,
          held,
          number,
          get-pop (put w.row.last_by_user user.username (at t)) user.username other,
          get-put w.row.last_by_user user.username other (at t),
        )
        (ground arith)

  settle-Effect :
      (t reading : ℕ) (w₁ : World)
      → t ≡ w.clock reading
      → w.readings ≤ reading
      → IsIdle w user.username reason
      → w₁.row ≡ record_location_request w.row user.username t
      → w₁.wire ≡ w.wire
      → (out : Outcome Config) (w₂ : World) → Fanout ids w₁ out w₂
      → BatchEffect accounts config user_id reason w (settle t (out, w₂)).0 (settle t (out, w₂)).1
  unfolding record_location_request
  settle-Effect t reading w₁ taken later idle row wire (ok _) w₂
        (all_sent c ps books reports out_ps) =
      fulfilled user t reading ps taken later valid found devices idle reports (rw (← wire) out_ps)
        (λ other.
          rw (books.by_user ∙ ap (λ r. r.last_by_user) row)
            (get-put w.row.last_by_user user.username other (at t)))
  settle-Effect t reading w₁ taken later idle row wire (raised _) w₂
        (cut_short e done left ps books status split more reports out_ps) =
      failed user e done left ps status found idle split more reports (rw (← wire) out_ps)
        (cleared t w₂.row (books.by_user ∙ ap (λ r. r.last_by_user) row))

  reserve-Effect :
      (out : Outcome ℕ) (w₁ : World)
      → Reserved user.username reason w out w₁
      → BatchEffect accounts config user_id reason w
          (and_then (λ t v. settle t (publish_each config ids v)) (out, w₁)).0
          (and_then (λ t v. settle t (publish_each config ids v)) (out, w₁)).1
  unfolding user_cooldown_error
  reserve-Effect (raised _) w₁ (busy end held on row wire) = refused _ conflict row wire
  reserve-Effect (ok t) w₁ (reserved _ reading taken later idle row wire) =
      settle-Effect t reading w₁ taken later idle row wire _ _ (publish_each-Fanout config ids w₁)

  -- From the choice of the devices on.
  devices-Effect :
      BatchEffect accounts config user_id reason w
        (and_then
          (λ t v. settle t (publish_each config ids v))
          (reserve_user_cooldown user.username reason w)).0
        (and_then
          (λ t v. settle t (publish_each config ids v))
          (reserve_user_cooldown user.username reason w)).1
  devices-Effect = reserve-Effect _ _ (reserve_user_cooldown-Reserved user.username reason w)

abbrev tail_of_all : List Account → Config → String → Account → Request BatchResult
tail_of_all accounts config reason user = do
  devices ← require_devices user user.devices
  let ids = map (mqtt_device_id_for_device user) devices
  requested_at ← reserve_user_cooldown user.username reason
  _ ←
      except (publish_each config ids)
        (λ row. clear_location_request row user.username requested_at)
  return (record {
    user_id = user.username;
    device_ids = ids;
    requested_at = requested_at;
    cooldown_until = requested_at + seconds (user_cooldown_seconds_for_reason config reason);
    reason = reason;
  })

tail-Effect :
    (accounts : List Account) (config : Config) (user_id reason : String) (w : World)
    (user : Account)
    → is_valid_reason reason ≡ true
    → find_active accounts (strip user_id) ≡ some user
    → BatchEffect accounts config user_id reason w
        (tail_of_all accounts config reason user w).0
        (tail_of_all accounts config reason user w).1
tail-Effect accounts config user_id reason w user valid found = elim (List-cases user.devices) [
  | inl empty ↦ rw (require_devices_none user user.devices w empty) (refused _ not_found refl refl)
  | inr full ↦
      rw (require_devices_some user user.devices w full)
        (devices-Effect accounts config user_id reason w valid user found full)
]

-- Every call of `request_all_devices_location` ends in one of three ways. It is refused with 400, 404
-- or 409, and neither the row nor the wire has changed. Or it returns: the reason is a known one, the
-- user is active, has devices and no cooldown that holds this reason back; each device, in order, got
-- one reportLocation command; the user's stamp in the row, and no other user's, is the instant that
-- the result states. Or it fails with 503 at the first device that could not be reached: the devices
-- before that one got their command, those behind it none, and the user has no stamp any more, so
-- that no cooldown follows.
pub request_all_devices_location-Effect :
    (accounts : List Account) (config : Config) (user_id reason : String) (w : World)
    → BatchEffect accounts config user_id reason w
        (request_all_devices_location accounts config user_id reason w).0
        (request_all_devices_location accounts config user_id reason w).1
unfolding request_all_devices_location
request_all_devices_location-Effect accounts config user_id reason w =
    elim (Bool-cases (is_valid_reason reason)) [
      | inr invalid ↦ rw (validate_reason-false reason w invalid) (refused _ bad_request refl refl)
      | inl valid ↦ elim (Option-cases (find_active accounts (strip user_id))) [
        | inl unknown ↦
            rw (validate_reason-true reason w valid, active_user-none accounts user_id w unknown)
              (refused _ not_found refl refl)
        | inr (user, found) ↦
            rw (validate_reason-true reason w valid, active_user-some accounts user_id w user found)
              (tail-Effect accounts config user_id reason w user valid found)
      ]
    ]
