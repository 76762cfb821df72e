-- ===== src/Pairing/Probe.antt =====
-- A staged key is checked, and a staged pairing given up, without touching the active one.
use Prim.Native.String.{count}
use my_tracks.Base.{
  ℕ, ◌<◌, ◌≤◌, String, Option, true, false, ltb, ◌==◌, compared_texts, ◌≡◌, ◌≢◌, refl, arith, ap,
  sym, ◌∙◌, subst, eq_iff,
}
use my_tracks.Text.{strip}
use my_tracks.Pairing.{
  get_api_key, Urls, Pairing, Status, active, unknown, aborted, Crypto, pairing_status,
  verifier_matches, without_pending, pending_pairing_is_live, max_relay_key_length,
}
use my_tracks.Pairing.Operations.{
  abort_domesti_pairing, StageRequest, accepted, stage_domesti_pairing,
}
use my_tracks.Pairing.Keys.{
  outbound_key_matches, pending_outbound_key_matches, auth_check_permission, pending_key,
}
use my_tracks.Pairing.Switch.{IsStaged, stage-IsStaged}
use my_tracks.Pairing.Idempotent.{
  StatusOf, is_active, is_staged, is_expired, is_unknown, pairing_status-StatusOf,
}
use my_tracks.Pairing.Activation.{not_empty}

module _ (crypto : Crypto) (request : StageRequest) (config : Pairing) (e : ℕ) where
  auth_check-IsStaged :
      (c' : Pairing) (s : IsStaged crypto request config e c') (checked now : ℕ)
      → checked < e
      → verifier_matches crypto
          (strip request.outbound_api_key)
          (crypto.relay_key_verifier (strip request.outbound_api_key))
        ≡ true
      → auth_check_permission crypto c' request.outbound_api_key request.pairing_id checked now
        ≡ pending_key
  unfolding auth_check_permission pending_outbound_key_matches pending_pairing_is_live
  auth_check-IsStaged c' s checked now early matches =
      let full = not_empty (strip request.pairing_id) s.id in
      let self = (eq_iff (strip request.pairing_id) (strip request.pairing_id)).1 refl in
      let live : ltb checked e ≡ true = ground arith in
      let given : (strip request.outbound_api_key == "") ≡ false = ground (arith, s.keys) in
      subst
        (λ c.
          auth_check_permission crypto c request.outbound_api_key request.pairing_id checked now
          ≡ pending_key)
        (sym s.changed) (rw (given, full, live, self, matches) refl)

-- Until a staged pairing expires, the check of authentication accepts its key, under its id, as the pending
-- one, whatever is active, provided that the key has at most 512 characters and its digest is not the
-- empty text.
pub auth_check_permission-stage_domesti_pairing :
    (crypto : Crypto) (request : StageRequest) (urls : Option Urls) (staged_at checked now e : ℕ)
    (config : Pairing)
    → (stage_domesti_pairing crypto request urls staged_at config).0 ≡ accepted e
    → checked < e
    → count (strip request.outbound_api_key) ≤ max_relay_key_length
    → crypto.relay_key_verifier (strip request.outbound_api_key) ≢ ""
    → auth_check_permission crypto
        (stage_domesti_pairing crypto request urls staged_at config).1
        request.outbound_api_key
        request.pairing_id
        checked
        now
      ≡ pending_key
unfolding verifier_matches
auth_check_permission-stage_domesti_pairing crypto request urls staged_at checked now e config done
      early short digest =
    let s = stage-IsStaged crypto request urls staged_at config e done in
    auth_check-IsStaged crypto request config e _ s checked now early (
      ground (
        arith,
        s.keys,
        short,
        eq_iff (crypto.relay_key_verifier (strip request.outbound_api_key)) "",
        (eq_iff (crypto.relay_key_verifier (strip request.outbound_api_key))
              (crypto.relay_key_verifier (strip request.outbound_api_key))).1
            refl,
      ))

module _ (pairing_id : String) (now : ℕ) (config : Pairing) where
  abort-without_pending :
      (status : Status)
      → StatusOf config pairing_id status
      → pairing_status config pairing_id now ≡ status
      → (abort_domesti_pairing pairing_id now config).0 ≡ aborted
      → (abort_domesti_pairing pairing_id now config).1 ≡ without_pending config
  unfolding abort_domesti_pairing
  abort-without_pending _ (is_active own) s done =
      absurd (let wrong : active ≡ aborted = rw (s, abort_domesti_pairing) at done in cc)
  abort-without_pending _ (is_staged full) s done = rw (s, abort_domesti_pairing) refl
  abort-without_pending _ is_expired s done = rw (s, abort_domesti_pairing) refl
  abort-without_pending _ is_unknown s done =
      absurd (let wrong : unknown ≡ aborted = rw (s, abort_domesti_pairing) at done in cc)

-- A pairing that was aborted is gone, so that no key is accepted as a pending one any more, under any id;
-- the keys that are accepted as active ones stay the same.
pub abort_domesti_pairing_aborted :
    (crypto : Crypto) (pairing_id : String) (now : ℕ) (config : Pairing) (presented id : String)
    (t : ℕ)
    → (abort_domesti_pairing pairing_id now config).0 ≡ aborted
    → (pending_outbound_key_matches crypto
          (abort_domesti_pairing pairing_id now config).1
          presented
          id
          t
        ≡ false)
      × (outbound_key_matches crypto (abort_domesti_pairing pairing_id now config).1 presented t
          ≡ outbound_key_matches crypto config presented t)
unfolding outbound_key_matches pending_outbound_key_matches pending_pairing_is_live get_api_key
abort_domesti_pairing_aborted crypto pairing_id now config presented id t done =
    let gone =
      abort-without_pending pairing_id now config _ (pairing_status-StatusOf config pairing_id now)
        refl done in
    (
      ap (λ c. pending_outbound_key_matches crypto c presented id t) gone ∙ ground arith,
      ap (λ c. outbound_key_matches crypto c presented t) gone,
    )
