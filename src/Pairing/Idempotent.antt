-- ===== src/Pairing/Idempotent.antt =====
-- Activating a pairing again changes nothing.
use my_tracks.Base.{
  ℕ, String, Option, none, some, Bool, true, false, not, ◌==◌, compared_texts, ◌&&◌, ◌≡◌, refl,
  arith, ap, sym, ◌∙◌, subst, eq_iff, inl, inr, Bool-cases, if-cases,
}
use my_tracks.Pairing.{
  Encoded, bytes, undecodable, Pending, Pairing, Status, active, staged, expired, unknown, Crypto,
  pairing_status, without_pending, names_pending, pending_pairing_is_live, pending_is_well_formed,
}
use my_tracks.Pairing.Operations.{
  promote, promote_pending, promote_decoded, drop_malformed, activate_domesti_pairing,
}

-- The test of `pairing_status` for the active pairing.
abbrev pub is_active_id : Pairing → String → Bool
is_active_id config pairing_id = not (pairing_id == "") && config.activated_pairing_id == pairing_id

-- What each status says of the id that was asked for.
pub data StatusOf (config : Pairing) (pairing_id : String) : Status → Type 0 where
  is_active : is_active_id config pairing_id ≡ true → StatusOf config pairing_id active
  is_staged : (pairing_id == "") ≡ false → StatusOf config pairing_id staged
  is_expired : StatusOf config pairing_id expired
  is_unknown : StatusOf config pairing_id unknown

module _ (config : Pairing) (pairing_id : String) (t : ℕ) where
  pairing_status_active :
      is_active_id config pairing_id ≡ true → pairing_status config pairing_id t ≡ active
  unfolding pairing_status
  pairing_status_active h = rw h refl

  pub pairing_status-StatusOf : StatusOf config pairing_id (pairing_status config pairing_id t)
  unfolding pairing_status
  pairing_status-StatusOf =
      if-cases (StatusOf config pairing_id) (is_active_id config pairing_id) is_active (λ a.
        if-cases (StatusOf config pairing_id)
          (not (pairing_id == "") && names_pending config.pending_pairing pairing_id)
          (λ b.
            if-cases (StatusOf config pairing_id) (pending_pairing_is_live config.pending_pairing t)
              (λ c. is_staged (ground (arith, b))) (λ c. is_expired))
          (λ b. is_unknown))

-- A configuration in which `pairing_id` is active and that an activation of it leaves alone.
record IsSettled (pairing_id : String) (c : Pairing) : Type 0 where
  own : is_active_id c pairing_id ≡ true
  tidy : drop_malformed c.pending_pairing c ≡ c

drop_malformed-IsSettled :
    (pairing_id : String) (c : Pairing) (pending : Option Pending)
    → c.pending_pairing ≡ pending
    → is_active_id c pairing_id ≡ true
    → IsSettled pairing_id (drop_malformed pending c)
drop_malformed-IsSettled pairing_id c none e own = record {
  own = own;
  tidy = ap (λ p. drop_malformed p c) e;
}
drop_malformed-IsSettled pairing_id c (some pending) e own =
    elim (Bool-cases (pending_is_well_formed pending)) [
      | inl formed ↦
          let kept : drop_malformed (some pending) c ≡ c = rw formed refl in
          subst (IsSettled pairing_id) (sym kept)
            (record { own = own; tidy = ap (λ p. drop_malformed p c) e ∙ kept })
      | inr malformed ↦
          let dropped : drop_malformed (some pending) c ≡ without_pending c = rw malformed refl in
          subst (IsSettled pairing_id) (sym dropped) (record { own = own; tidy = refl })
    ]

module _ (crypto : Crypto) (pairing_id : String) (now : ℕ) (config : Pairing)
    (full : (pairing_id == "") ≡ false) where
  promote-IsSettled :
      (pending : Pending) (inbound : String)
      → IsSettled pairing_id (promote crypto pairing_id now pending inbound config)
  unfolding promote
  promote-IsSettled pending inbound =
      let self = (eq_iff pairing_id pairing_id).1 refl in
      record { own = rw (full, self) refl; tidy = refl }

  promote_decoded-IsSettled :
      (pending : Pending) (encoded : Option Encoded) (c' : Pairing)
      → promote_decoded crypto pairing_id now pending encoded config ≡ (active, c')
      → IsSettled pairing_id c'
  promote_decoded-IsSettled pending none c' e = absurd (let wrong = ap (λ r. r.0) e in cc)
  promote_decoded-IsSettled pending (some undecodable) c' e =
      absurd (let wrong = ap (λ r. r.0) e in cc)
  promote_decoded-IsSettled pending (some (bytes inbound)) c' e =
      subst (IsSettled pairing_id) (ap (λ r. r.1) e) (promote-IsSettled pending inbound)

  promote_pending-IsSettled :
      (pending : Option Pending) (c' : Pairing)
      → promote_pending crypto pairing_id now pending config ≡ (active, c')
      → IsSettled pairing_id c'
  promote_pending-IsSettled none c' e = absurd (let wrong = ap (λ r. r.0) e in cc)
  promote_pending-IsSettled (some pending) c' e =
      promote_decoded-IsSettled pending pending.encrypted_api_key c' e

activate-IsSettled :
    (crypto : Crypto) (pairing_id : String) (checked now : ℕ) (config c' : Pairing)
    (status : Status)
    → StatusOf config pairing_id status
    → pairing_status config pairing_id checked ≡ status
    → activate_domesti_pairing crypto pairing_id checked now config ≡ (active, c')
    → IsSettled pairing_id c'
unfolding activate_domesti_pairing
activate-IsSettled crypto pairing_id checked now config c' _ (is_active own) s e =
    let run : activate_domesti_pairing crypto pairing_id checked now config
        ≡ (active, drop_malformed config.pending_pairing config) =
      rw (s, activate_domesti_pairing) refl in
    subst (IsSettled pairing_id) (ap (λ r. r.1) (sym run ∙ e))
      (drop_malformed-IsSettled pairing_id config config.pending_pairing refl own)
activate-IsSettled crypto pairing_id checked now config c' _ (is_staged full) s e =
    let run : activate_domesti_pairing crypto pairing_id checked now config
        ≡ promote_pending crypto pairing_id now config.pending_pairing config =
      rw (s, activate_domesti_pairing) refl in
    promote_pending-IsSettled crypto pairing_id now config full config.pending_pairing c'
      (sym run ∙ e)
activate-IsSettled crypto pairing_id checked now config c' _ is_expired s e =
    let run : activate_domesti_pairing crypto pairing_id checked now config
        ≡ (expired, without_pending config) =
      rw (s, activate_domesti_pairing) refl in
    absurd (let wrong = ap (λ r. r.0) (sym run ∙ e) in cc)
activate-IsSettled crypto pairing_id checked now config c' _ is_unknown s e =
    let run : activate_domesti_pairing crypto pairing_id checked now config
        ≡ (unknown, drop_malformed config.pending_pairing config) =
      rw (s, activate_domesti_pairing) refl in
    absurd (let wrong = ap (λ r. r.0) (sym run ∙ e) in cc)

-- An activation that answers `active` can be repeated at any time: the answer is `active` again, and the
-- configuration stays as it is.
pub activate_domesti_pairing_again :
    (crypto : Crypto) (pairing_id : String) (checked now checked' now' : ℕ) (config c' : Pairing)
    → activate_domesti_pairing crypto pairing_id checked now config ≡ (active, c')
    → activate_domesti_pairing crypto pairing_id checked' now' c' ≡ (active, c')
unfolding activate_domesti_pairing
activate_domesti_pairing_again crypto pairing_id checked now checked' now' config c' e =
    let settled =
      activate-IsSettled crypto pairing_id checked now config c' _
        (pairing_status-StatusOf config pairing_id checked) refl e in
    rw (pairing_status_active c' pairing_id checked' settled.own, activate_domesti_pairing)
      (ap (λ c. (active, c)) settled.tidy)
