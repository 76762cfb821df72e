-- ===== src/Requests/Single.antt =====
-- What `request_single_device_location` does on every path.
use my_tracks.Base.{
  ℕ, ◌+◌, ◌≤◌, ◌<◌, String, Option, none, some, List, [], ◌∷◌, ◌++◌, true, ◌==◌, compared_texts,
  compared_numbers, leb, if◌then◌else◌, ◌≡◌, refl, arith, ap, ◌∙◌, inl, inr, ◌⊎◌, eq_iff,
  Bool-cases, Option-cases,
}
use my_tracks.Base.Table.{put, get, get-put, get-pop}
use my_tracks.Text.{strip}
use my_tracks.Commands.{Publication}
use my_tracks.Requests.{
  Account, Device, mqtt_device_id_for_device, device_for_user, is_valid_reason, find_active,
  device_cooldown_error, reserve_device_cooldown, publish_report_location, DeviceResult,
  require_device, request_single_device_location,
}
use my_tracks.Requests.Settings.{
  Config, at, seconds, device_cooldown_end, record_device_location_request,
  clear_device_location_request,
}
use my_tracks.Requests.Effects.{
  World, RequestError, Outcome, ok, raised, Request, and_then, ◌>>=◌, ◌>>◌, return, restore, except,
}
use my_tracks.Requests.Checks.{
  validate_reason-true, validate_reason-false, active_user-some, active_user-none,
}
use my_tracks.Requests.Batch.{IsRefusal, bad_request, not_found, conflict}
use my_tracks.Requests.Fanout.{IsReport, Published, sent, failed, publish_report_location-Published}

-- No cooldown that has not ended yet holds the device's requests back.
abbrev pub IsFree : World → String → Type 0
IsFree w id =
    (device_cooldown_end w.row id ≡ none)
    ⊎ ((end : ℕ) × (device_cooldown_end w.row id ≡ some end) × (end ≤ w.clock w.readings))

data Reserved (id : String) (w : World) : Outcome ℕ → World → Type 0 where
  busy :
      {w' : World} (end : ℕ)
      → device_cooldown_end w.row id ≡ some end
      → w.clock w.readings < end
      → w'.row ≡ w.row
      → w'.wire ≡ w.wire
      → Reserved id w (raised (device_cooldown_error end)) w'
  reserved :
      {w' : World} (t reading : ℕ)
      → t ≡ w.clock reading
      → w.readings ≤ reading
      → IsFree w id
      → w'.row ≡ record_device_location_request w.row id t
      → w'.wire ≡ w.wire
      → Reserved id w (ok t) w'

reserve_device_cooldown-Reserved :
    (id : String) (w : World)
    → Reserved id w (reserve_device_cooldown id w).0 (reserve_device_cooldown id w).1
unfolding reserve_device_cooldown
reserve_device_cooldown-Reserved id w = elim (Option-cases (device_cooldown_end w.row id)) [
  | inl free ↦ rw free (reserved _ w.readings refl (omega arith) (inl free) refl refl)
  | inr (end, held) ↦ elim (Bool-cases (leb end (w.clock w.readings))) [
    | inl over ↦
        rw (held, over)
          (reserved _ (w.readings + 1) refl (omega arith) (inr (end, held, ground arith)) refl refl)
    | inr on ↦ rw (held, on) (busy end held (ground arith) refl refl)
  ]
]

pub data DeviceEffect (accounts : List Account) (config : Config)
    (user_id device_id reason : String) (w : World) : Outcome DeviceResult → World → Type 0 where
  refused :
      {w' : World} (e : RequestError)
      → IsRefusal e.status_code
      → w'.row ≡ w.row
      → w'.wire ≡ w.wire
      → DeviceEffect accounts config user_id device_id reason w (raised e) w'
  fulfilled :
      {w' : World} (user : Account) (d : Device) (t reading : ℕ) (p : Publication)
      → t ≡ w.clock reading
      → w.readings ≤ reading
      → is_valid_reason reason ≡ true
      → find_active accounts (strip user_id) ≡ some user
      → device_for_user user device_id ≡ some d
      → IsFree w (mqtt_device_id_for_device user d)
      → IsReport (mqtt_device_id_for_device user d) p
      → w'.wire.published ≡ w.wire.published ++ p ∷ []
      → w'.row ≡ record_device_location_request w.row (mqtt_device_id_for_device user d) t
      → DeviceEffect accounts config user_id device_id reason w
          (ok (record {
            user_id = user.username;
            device_id = mqtt_device_id_for_device user d;
            requested_at = t;
            cooldown_until = t + seconds config.device_cooldown;
            reason = reason;
          }))
          w'
  unsent :
      {w' : World} (user : Account) (d : Device) (e : RequestError)
      → e.status_code ≡ 503
      → find_active accounts (strip user_id) ≡ some user
      → device_for_user user device_id ≡ some d
      → IsFree w (mqtt_device_id_for_device user d)
      → w'.wire.published ≡ w.wire.published
      → ((other : String)
          → get w'.row.last_by_device other ≡ (
              if mqtt_device_id_for_device user d == other
              then none
              else get w.row.last_by_device other))
      → DeviceEffect accounts config user_id device_id reason w (raised e) w'

module _ (accounts : List Account) (config : Config) (user_id device_id reason : String) (w : World)
    (valid : is_valid_reason reason ≡ true) (user : Account)
    (found : find_active accounts (strip user_id) ≡ some user) (d : Device)
    (owned : device_for_user user device_id ≡ some d) where
  abbrev id : String
  id = mqtt_device_id_for_device user d

  abbrev EffectOf : Outcome DeviceResult × World → Type 0
  EffectOf result = DeviceEffect accounts config user_id device_id reason w result.0 result.1

  abbrev settle : ℕ → Outcome (Unit {0}) × World → Outcome DeviceResult × World
  settle t out =
      and_then
        (λ _. return (record {
          user_id = user.username;
          device_id = id;
          requested_at = t;
          cooldown_until = t + seconds config.device_cooldown;
          reason = reason;
        }))
        (restore (λ row. clear_device_location_request row id t) out)

  cleared :
      (t : ℕ) (row : Config)
      → row.last_by_device ≡ put w.row.last_by_device id (at t)
      → (other : String)
      → get (clear_device_location_request row id t).last_by_device other
        ≡ (if id == other then none else get w.row.last_by_device other)
  unfolding clear_device_location_request
  cleared t row same other =
      let self = (eq_iff id id).1 refl in
      let held : get (put w.row.last_by_device id (at t)) id ≡ some (at t) =
        rw (get-put w.row.last_by_device id id (at t), self) refl in
      let number = (compared_numbers.agree_iff t t).1 refl in
      rw
        (
          same,
          held,
          number,
          get-pop (put w.row.last_by_device id (at t)) id other,
          get-put w.row.last_by_device id other (at t),
        )
        (ground arith)

  settle-Effect :
      (t reading : ℕ) (w₁ : World)
      → t ≡ w.clock reading
      → w.readings ≤ reading
      → IsFree w id
      → w₁.row ≡ record_device_location_request w.row id t
      → w₁.wire ≡ w.wire
      → (out : Outcome (Unit {0})) (w₂ : World) → Published id w₁ out w₂
      → EffectOf (settle t (out, w₂))
  unfolding record_device_location_request
  settle-Effect t reading w₁ taken later idle row wire (ok _) w₂ (sent p books r out_p row') =
      fulfilled user d t reading p taken later valid found owned idle r (rw (← wire) out_p)
        (row' ∙ row)
  settle-Effect t reading w₁ taken later idle row wire (raised _) w₂
        (failed e books status out_p row') =
      unsent user d e status found owned idle (rw (← wire) out_p)
        (cleared t w₂.row (ap (λ r. r.last_by_device) (row' ∙ row)))

  reserve-Effect :
      (out : Outcome ℕ) (w₁ : World)
      → Reserved id w out w₁
      → EffectOf (and_then (λ t v. settle t (publish_report_location id v)) (out, w₁))
  unfolding device_cooldown_error
  reserve-Effect (raised _) w₁ (busy end held on row wire) = refused _ conflict row wire
  reserve-Effect (ok t) w₁ (reserved _ reading taken later idle row wire) =
      settle-Effect t reading w₁ taken later idle row wire _ _
        (publish_report_location-Published id w₁)

  owned-Effect :
      EffectOf
        (and_then (λ t v. settle t (publish_report_location id v)) (reserve_device_cooldown id w))
  owned-Effect = reserve-Effect _ _ (reserve_device_cooldown-Reserved id w)

abbrev rest_of_single : Config → String → Account → Option Device → Request DeviceResult
rest_of_single config reason user sought = do
  d ← require_device user sought
  let id = mqtt_device_id_for_device user d
  requested_at ← reserve_device_cooldown id
  except (publish_report_location id) (λ row. clear_device_location_request row id requested_at)
  return (record {
    user_id = user.username;
    device_id = id;
    requested_at = requested_at;
    cooldown_until = requested_at + seconds config.device_cooldown;
    reason = reason;
  })

rest-Effect :
    (accounts : List Account) (config : Config) (user_id device_id reason : String) (w : World)
    (user : Account)
    → is_valid_reason reason ≡ true
    → find_active accounts (strip user_id) ≡ some user
    → (sought : Option Device) → device_for_user user device_id ≡ sought
    → DeviceEffect accounts config user_id device_id reason w
        (rest_of_single config reason user sought w).0
        (rest_of_single config reason user sought w).1
rest-Effect accounts config user_id device_id reason w user valid found none e =
    refused _ not_found refl refl
rest-Effect accounts config user_id device_id reason w user valid found (some d) e =
    owned-Effect accounts config user_id device_id reason w valid user found d e

-- Every call of `request_single_device_location` ends in one of three ways. It is refused with 400,
-- 404 or 409, and neither the row nor the wire has changed. Or it returns: the reason is a known one,
-- the user is active and owns the device, which has no cooldown that still holds; one reportLocation
-- command went out, and the row differs only in the device's stamp, which is the instant that the
-- result states. Or it fails with 503: nothing went out, and the device, alone, has no stamp any more.
pub request_single_device_location-Effect :
    (accounts : List Account) (config : Config) (user_id device_id reason : String) (w : World)
    → DeviceEffect accounts config user_id device_id reason w
        (request_single_device_location accounts config user_id device_id reason w).0
        (request_single_device_location accounts config user_id device_id reason w).1
unfolding request_single_device_location
request_single_device_location-Effect accounts config user_id device_id reason w =
    elim (Bool-cases (is_valid_reason reason)) [
      | inr invalid ↦ rw (validate_reason-false reason w invalid) (refused _ bad_request refl refl)
      | inl valid ↦ elim (Option-cases (find_active accounts (strip user_id))) [
        | inl unknown ↦
            rw (validate_reason-true reason w valid, active_user-none accounts user_id w unknown)
              (refused _ not_found refl refl)
        | inr (user, found) ↦
            rw (validate_reason-true reason w valid, active_user-some accounts user_id w user found)
              (rest-Effect accounts config user_id device_id reason w user valid found _ refl)
      ]
    ]
