-- ===== src/Requests/Limits.antt =====
-- A successful batch request holds the next one of the same user back until its cooldown has ended.
use my_tracks.Base.{
  ℕ, ◌+◌, ◌<◌, String, some, List, [], compared_texts, leb, true, false, ◌≡◌, ◌≢◌, refl, arith, ap,
  sym, ◌∙◌, eq_iff,
}
use my_tracks.Base.Table.{get}
use my_tracks.Text.{strip}
use my_tracks.Requests.{
  Account, is_valid_reason, find_active, user_cooldown_error, reserve_user_cooldown, BatchResult,
  request_all_devices_location,
}
use my_tracks.Requests.Settings.{
  Config, at, seconds, user_cooldown_seconds_for_reason, user_cooldown_end,
}
use my_tracks.Requests.Effects.{World, Outcome, ok, raised}
use my_tracks.Requests.Checks.{validate_reason-true, active_user-some, require_devices_some}
use my_tracks.Requests.Batch.{
  BatchEffect, refused, fulfilled, failed, request_all_devices_location-Effect,
}

-- What the caller of a request that returned knows.
pub record IsServed (accounts : List Account) (user_id : String) (r : BatchResult) (w' : World)
    : Type 0 where
  pub user : Account
  pub found : find_active accounts (strip user_id) ≡ some user
  pub devices : user.devices ≢ []
  pub same : r.user_id ≡ user.username
  pub stamp : get w'.row.last_by_user user.username ≡ some (at r.requested_at)

BatchEffect-IsServed :
    {accounts : List Account} {config : Config} {user_id reason : String} {w w' : World}
    {out : Outcome BatchResult} (r : BatchResult)
    → BatchEffect accounts config user_id reason w out w'
    → out ≡ ok r
    → IsServed accounts user_id r w'
BatchEffect-IsServed r (refused e status row wire) h = cc
BatchEffect-IsServed r
      (failed user e done left ps status found idle split more reports out_ps stamps) h =
    cc
BatchEffect-IsServed {w'} r
      (fulfilled user t reading ps taken later valid found devices idle reports out_ps stamps) h =
    record {
      user = user;
      found = found;
      devices = devices;
      same = ground arith;
      stamp =
          stamps user.username ∙ rw ((eq_iff user.username user.username).1 refl) (ground arith);
    }

module _ (user_id reason : String) (w : World) where
  reserve_user_cooldown_busy :
      (end : ℕ)
      → user_cooldown_end w.row user_id reason ≡ some end
      → w.clock w.readings < end
      → reserve_user_cooldown user_id reason w
        ≡ (raised (user_cooldown_error w.row end), record w { readings = w.readings + 1 })
  unfolding reserve_user_cooldown
  reserve_user_cooldown_busy end held on =
      let early : leb end (w.clock w.readings) ≡ false = ground arith in rw (held, early) refl

  reserve_user_cooldown_stamped :
      (t : ℕ)
      → get w.row.last_by_user user_id ≡ some (at t)
      → w.clock w.readings < t + seconds (user_cooldown_seconds_for_reason w.row reason)
      → reserve_user_cooldown user_id reason w ≡ (
        raised (
            user_cooldown_error w.row
              (t + seconds (user_cooldown_seconds_for_reason w.row reason))),
        record w { readings = w.readings + 1 },
      )
  unfolding user_cooldown_end
  reserve_user_cooldown_stamped t held on = reserve_user_cooldown_busy _ (rw held refl) on

request_all_devices_location_stamped :
    (accounts : List Account) (config : Config) (user_id reason : String) (w : World)
    (user : Account) (t : ℕ)
    → is_valid_reason reason ≡ true
    → find_active accounts (strip user_id) ≡ some user
    → user.devices ≢ []
    → get w.row.last_by_user user.username ≡ some (at t)
    → w.clock w.readings < t + seconds (user_cooldown_seconds_for_reason w.row reason)
    → request_all_devices_location accounts config user_id reason w ≡ (
      raised
          (user_cooldown_error w.row (t + seconds (user_cooldown_seconds_for_reason w.row reason))),
      record w { readings = w.readings + 1 },
    )
unfolding request_all_devices_location
request_all_devices_location_stamped accounts config user_id reason w user t valid found devices
      held on =
    rw
      (
        validate_reason-true reason w valid,
        active_user-some accounts user_id w user found,
        require_devices_some user user.devices w devices,
        reserve_user_cooldown_stamped user.username reason w t held on,
      )
      refl

-- After a batch request that returned `r`, in any later world that still holds the user's stamp, a
-- batch request of the same user for any known reason is refused with 409 for as long as the clock is
-- before the end of the cooldown that this reason has; it states that end, and changes nothing but
-- that it has read the clock.
pub request_all_devices_location_limited :
    (accounts : List Account) (config config' : Config) (user_id reason reason' : String)
    (w w' later : World) (r : BatchResult)
    → request_all_devices_location accounts config user_id reason w ≡ (ok r, w')
    → get later.row.last_by_user r.user_id ≡ get w'.row.last_by_user r.user_id
    → is_valid_reason reason' ≡ true
    → later.clock later.readings
      < r.requested_at + seconds (user_cooldown_seconds_for_reason later.row reason')
    → request_all_devices_location accounts config' user_id reason' later ≡ (
      raised (
          user_cooldown_error later.row
            (r.requested_at + seconds (user_cooldown_seconds_for_reason later.row reason'))),
      record later { readings = later.readings + 1 },
    )
request_all_devices_location_limited accounts config config' user_id reason reason' w w' later r e
      held valid on =
    let s =
      BatchEffect-IsServed r (request_all_devices_location-Effect accounts config user_id reason w)
        (ap (λ p. p.0) e) in
    request_all_devices_location_stamped accounts config' user_id reason' later s.user
      r.requested_at valid s.found s.devices
      (ap (λ u. get later.row.last_by_user u) (sym s.same)
        ∙ held
        ∙ ap (λ p. get p.1.row.last_by_user r.user_id) (sym e)
        ∙ ap
            (λ u.
              get (request_all_devices_location accounts config user_id reason w).1.row.last_by_user
                u)
            s.same
        ∙ s.stamp)
      on
