-- ===== src/Queue/Rejections.antt =====
-- What the three `_reject_if_…` functions decide.
use my_tracks.Base.{
  ℕ, String, Option, none, some, Bool, false, ◌≡◌, refl, arith, Bool-cases, Option-cases, inl, inr,
}
use my_tracks.Base.Table.{get}
use my_tracks.Requests.{
  still_active, cooldown_until_for_user, cooldown_until_for_device, user_cooldown_error,
  device_cooldown_error,
}
use my_tracks.Requests.Settings.{Config, user_cooldown_end, device_cooldown_end}
use my_tracks.Requests.Effects.{World, Outcome, ok, raised, RequestError, Request, and_then}
use my_tracks.Queue.{
  raise_active, reject_if_user_cooldown_active, reject_if_user_batch_in_flight,
  reject_if_device_cooldown_active,
}
use my_tracks.Queue.State.{Queue, contains}

pub record SameWorld (w w' : World) : Type 0 where
  pub row : w'.row ≡ w.row
  pub wire : w'.wire ≡ w.wire

pub SameWorld-trans : {a b c : World} → SameWorld a b → SameWorld b c → SameWorld a c
SameWorld-trans p q = ground arith

pub data Checked (flying : Bool) (w : World) : Outcome (Unit {0}) → World → Type 0 where
  passed : {w' : World} → flying ≡ false → SameWorld w w' → Checked flying w (ok tt) w'
  refused :
      {w' : World} (e : RequestError)
      → e.status_code ≡ 409
      → SameWorld w w'
      → Checked flying w (raised e) w'

abbrev pub CheckedOf : Bool → World → Outcome (Unit {0}) × World → Type 0
CheckedOf flying w result = Checked flying w result.0 result.1

-- A cooldown is looked up and never raises.
data LookedUp (w : World) : Outcome (Option ℕ) → World → Type 0 where
  looked_up : {w' : World} (end : Option ℕ) → SameWorld w w' → LookedUp w (ok end) w'

still_active-LookedUp :
    (end : Option ℕ) (w : World) → LookedUp w (still_active end w).0 (still_active end w).1
still_active-LookedUp none w = looked_up none (ground arith)
still_active-LookedUp (some end) w = looked_up _ (ground arith)

module _ (raise : ℕ → Request (Unit {0})) (w : World)
    (raises : (until : ℕ) (v : World)
      → SameWorld w v
      → (flying : Bool) → CheckedOf flying w (raise until v)) where
  raise_active-Checked :
      (end : Option ℕ) (v : World) → SameWorld w v → CheckedOf false w (raise_active raise end v)
  raise_active-Checked none v same = passed refl same
  raise_active-Checked (some until) v same = raises until v same false

  after_lookup :
      (out : Outcome (Option ℕ)) (v w₁ : World)
      → SameWorld w w₁
      → LookedUp w₁ out v
      → CheckedOf false w (and_then (raise_active raise) (out, v))
  after_lookup _ v w₁ same (looked_up end kept) =
      raise_active-Checked end v (SameWorld-trans same kept)

module _ (queue : Queue) (config : Config) (w : World) where
  pub reject_if_user_cooldown_active-Checked :
      (user_id reason : String)
      → contains queue.pending_user_requested_at user_id
        ≡ contains queue.pending_user_in_flight user_id
      → CheckedOf
          (contains queue.pending_user_in_flight user_id)
          w
          (reject_if_user_cooldown_active queue config user_id reason w)
  unfolding reject_if_user_cooldown_active cooldown_until_for_user user_cooldown_error
  reject_if_user_cooldown_active-Checked user_id reason together =
      elim (Bool-cases (contains queue.pending_user_in_flight user_id)) [
        | inr free ↦ rw free (
            after_lookup _ w (λ until v same flying. refused _ refl same) _ _ _ (ground arith)
              (still_active-LookedUp (user_cooldown_end config user_id reason) _))
        | inl flying ↦ elim (Option-cases (get queue.pending_user_requested_at user_id)) [
          | inl missing ↦
              let gone : contains queue.pending_user_requested_at user_id ≡ false =
                rw missing refl in
              ground arith
          | inr (t, held) ↦ rw (flying, held) (refused _ refl (ground arith))
        ]
      ]

  pub reject_if_user_batch_in_flight-Checked :
      (user_id : String)
      → CheckedOf
          (contains queue.pending_user_in_flight user_id)
          w
          (reject_if_user_batch_in_flight queue config user_id w)
  unfolding reject_if_user_batch_in_flight user_cooldown_error
  reject_if_user_batch_in_flight-Checked user_id =
      elim (Bool-cases (contains queue.pending_user_in_flight user_id)) [
        | inr free ↦ rw free (passed refl (ground arith))
        | inl flying ↦ elim (Option-cases (get queue.pending_user_requested_at user_id)) [
          | inl missing ↦ rw (flying, missing) (refused _ refl (ground arith))
          | inr (t, held) ↦ rw (flying, held) (refused _ refl (ground arith))
        ]
      ]

  pub reject_if_device_cooldown_active-Checked :
      (id : String)
      → CheckedOf
          (contains queue.pending_device_in_flight id)
          w
          (reject_if_device_cooldown_active queue config id w)
  unfolding reject_if_device_cooldown_active cooldown_until_for_device device_cooldown_error
  reject_if_device_cooldown_active-Checked id =
      elim (Bool-cases (contains queue.pending_device_in_flight id)) [
        | inr free ↦ rw free (
            after_lookup _ w (λ until v same flying. refused _ refl same) _ _ _ (ground arith)
              (still_active-LookedUp (device_cooldown_end config id) _))
        | inl flying ↦ rw flying (refused _ refl (ground arith))
      ]
