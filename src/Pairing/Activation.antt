-- ===== src/Pairing/Activation.antt =====
-- The activation of a staged pairing.
use Prim.Native.String.{count}
use my_tracks.Base.{
  ℕ, ◌+◌, ◌<◌, ◌≤◌, String, Option, some, true, false, not, ◌*◌, ltb, ◌==◌, compared_texts, ◌&&◌,
  ◌||◌, ◌≡◌, ◌≢◌, refl, arith, ap, sym, ◌∙◌, subst, eq_iff, inl, inr, Bool-cases,
}
use my_tracks.Text.{strip}
use my_tracks.Pairing.{
  bytes, Pending, Urls, Pairing, active, staged, Crypto, pairing_status, is_pairing_id,
  verifier_matches, pending_is_well_formed, pending_pairing_is_live, text_or_empty,
  max_relay_key_length,
}
use my_tracks.Pairing.Operations.{
  previous_verifier, previous_key_grace, promote, promote_pending, promote_decoded,
  activate_domesti_pairing, StageRequest, accepted, stage_domesti_pairing,
}
use my_tracks.Pairing.Previous.{
  accepts, verifier_matches-accepts, IsPreviousDigest, previous_verifier-IsPreviousDigest,
}
use my_tracks.Pairing.Keys.{outbound_key_matches}
use my_tracks.Pairing.Switch.{IsStaged, stage-IsStaged}

module _ (crypto : Crypto) (pairing_id : String) (checked now : ℕ) (config : Pairing) where
  activate_staged :
      (pending : Pending) (inbound : String)
      → config.pending_pairing ≡ some pending
      → pending.encrypted_api_key ≡ some (bytes inbound)
      → pairing_status config pairing_id checked ≡ staged
      → activate_domesti_pairing crypto pairing_id checked now config
        ≡ (active, promote crypto pairing_id now pending inbound config)
  unfolding activate_domesti_pairing
  activate_staged pending inbound held readable status =
      rw (status, activate_domesti_pairing)
        (ap (λ p. promote_pending crypto pairing_id now p config) held
          ∙ ap (λ k. promote_decoded crypto pairing_id now pending k config) readable)

module _ (crypto : Crypto) (presented : String) where
  verifier_matches-empty : verifier_matches crypto presented "" ≡ false
  unfolding verifier_matches
  verifier_matches-empty = refl

  outbound_key_matches-promote :
      (pairing_id inbound : String) (now t : ℕ) (pending : Pending) (config : Pairing)
      → outbound_key_matches crypto
          (promote crypto pairing_id now pending inbound config)
          presented
          t
        ≡ (verifier_matches crypto presented (text_or_empty pending.outbound_key_verifier)
            || ltb t (now + previous_key_grace)
              && verifier_matches crypto presented (previous_verifier crypto config))
  unfolding outbound_key_matches promote
  outbound_key_matches-promote pairing_id inbound now t pending config =
      elim (Bool-cases (previous_verifier crypto config == "")) [
        | inl empty ↦
            let same : previous_verifier crypto config ≡ "" = (eq_iff _ _).0 empty in
            let nothing = ap (verifier_matches crypto presented) same ∙ verifier_matches-empty in
            rw (empty, nothing) (ground arith)
        | inr held ↦ rw held (ground arith)
      ]

-- When a staged pairing is activated, a key is accepted from then on, at every instant, exactly if it has
-- 1 to 512 characters and its digest is the staged verifier or, for sixty seconds more, the digest of the
-- key that was valid before; an empty digest accepts no key.
pub outbound_key_matches-activate_domesti_pairing :
    (crypto : Crypto) (pairing_id : String) (checked now : ℕ) (config : Pairing) (pending : Pending)
    (inbound presented : String) (t : ℕ)
    → config.pending_pairing ≡ some pending
    → pending.encrypted_api_key ≡ some (bytes inbound)
    → pairing_status config pairing_id checked ≡ staged
    → (previous : String) × IsPreviousDigest crypto config previous
      × (outbound_key_matches crypto
            (activate_domesti_pairing crypto pairing_id checked now config).1
            presented
            t
          ≡ (accepts crypto presented (text_or_empty pending.outbound_key_verifier)
              || ltb t (now + 60 * 1000000) && accepts crypto presented previous))
outbound_key_matches-activate_domesti_pairing crypto pairing_id checked now config pending inbound
      presented t held readable status =
    (
      previous_verifier crypto config,
      previous_verifier-IsPreviousDigest crypto config,
      ap (λ r. outbound_key_matches crypto r.1 presented t)
            (activate_staged crypto pairing_id checked now config pending inbound held readable
              status)
          ∙ outbound_key_matches-promote crypto presented pairing_id inbound now t pending config
          ∙ rw
              (
                verifier_matches-accepts crypto presented
                    (text_or_empty pending.outbound_key_verifier),
                verifier_matches-accepts crypto presented (previous_verifier crypto config),
              )
              refl,
    )

module _ (id : String) where
  pub not_empty : is_pairing_id id ≡ true → (id == "") ≡ false
  unfolding is_pairing_id
  not_empty h = elim (Bool-cases (id == "")) [
    | inl empty ↦
        absurd
          (let wrong : false ≡ true = ap is_pairing_id (sym ((eq_iff id "").0 empty)) ∙ h in cc)
    | inr full ↦ full
  ]

  inactive :
      (current : String)
      → (id == "") ≡ false
      → not (current == "") && current == id ≡ false
      → (current == id) ≡ false
  inactive current full h = elim (Bool-cases (current == id)) [
    | inl same ↦
        (let at_current : (current == "") ≡ false =
            ap (λ k. k == "") ((eq_iff current id).0 same) ∙ full in
          ground (arith, h, same, at_current))
    | inr other ↦ other
  ]

module _ (crypto : Crypto) (request : StageRequest) (config : Pairing) (e : ℕ) where
  staged_status :
      (c' : Pairing) (s : IsStaged crypto request config e c') (t : ℕ)
      → t < e
      → pairing_status c' (strip request.pairing_id) t ≡ staged
  unfolding pairing_status pending_is_well_formed pending_pairing_is_live
  staged_status c' s t early =
      let full = not_empty (strip request.pairing_id) s.id in
      let other = inactive (strip request.pairing_id) config.activated_pairing_id full s.fresh in
      let self = (eq_iff (strip request.pairing_id) (strip request.pairing_id)).1 refl in
      let live : ltb t e ≡ true = ground arith in
      subst (λ c. pairing_status c (strip request.pairing_id) t ≡ staged) (sym s.changed)
        (rw (full, other, self, live) refl)

  key_of_staging :
      (c' : Pairing) (s : IsStaged crypto request config e c') (checked now t : ℕ)
      → checked < e
      → verifier_matches crypto
          (strip request.outbound_api_key)
          (crypto.relay_key_verifier (strip request.outbound_api_key))
        ≡ true
      → ((activate_domesti_pairing crypto (strip request.pairing_id) checked now c').0 ≡ active)
        × (outbound_key_matches crypto
              (activate_domesti_pairing crypto (strip request.pairing_id) checked now c').1
              (strip request.outbound_api_key)
              t
            ≡ true)
  key_of_staging c' s checked now t early matches =
      let status = staged_status c' s checked early in
      let held = ap (λ c. c.pending_pairing) s.changed in
      (
        ap (λ r. r.0) (activate_staged crypto _ checked now c' _ _ held refl status),
        ap (λ r. outbound_key_matches crypto r.1 (strip request.outbound_api_key) t)
              (activate_staged crypto _ checked now c' _ _ held refl status)
            ∙ outbound_key_matches-promote crypto (strip request.outbound_api_key) _ _ now t _ c'
            ∙ rw matches refl,
      )

-- A pairing that was staged and is activated before it expires becomes the active one, and the key that
-- was given for it authenticates domesti-bot from then on, provided that the key has at most 512
-- characters and its digest is not the empty text.
pub stage_domesti_pairing_active :
    (crypto : Crypto) (request : StageRequest) (urls : Option Urls) (staged_at checked now t e : ℕ)
    (config : Pairing)
    → (stage_domesti_pairing crypto request urls staged_at config).0 ≡ accepted e
    → checked < e
    → count (strip request.outbound_api_key) ≤ max_relay_key_length
    → crypto.relay_key_verifier (strip request.outbound_api_key) ≢ ""
    → ((activate_domesti_pairing crypto
          (strip request.pairing_id)
          checked
          now
          (stage_domesti_pairing crypto request urls staged_at config).1).0
        ≡ active)
      × (outbound_key_matches crypto
            (activate_domesti_pairing crypto
              (strip request.pairing_id)
              checked
              now
              (stage_domesti_pairing crypto request urls staged_at config).1).1
            (strip request.outbound_api_key)
            t
          ≡ true)
unfolding verifier_matches
stage_domesti_pairing_active crypto request urls staged_at checked now t e config done early short
      digest =
    let s = stage-IsStaged crypto request urls staged_at config e done in
    key_of_staging crypto request config e _ s checked now t early (
      ground (
        arith,
        s.keys,
        short,
        eq_iff (crypto.relay_key_verifier (strip request.outbound_api_key)) "",
        (eq_iff (crypto.relay_key_verifier (strip request.outbound_api_key))
              (crypto.relay_key_verifier (strip request.outbound_api_key))).1
            refl,
      ))
