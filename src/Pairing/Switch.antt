-- ===== src/Pairing/Switch.antt =====
-- Staging, activation and what they do to the keys that are accepted.
use my_tracks.Base.{
  ℕ, String, Option, none, some, true, false, not, ◌==◌, compared_texts, ◌&&◌, ◌||◌, ◌≡◌, ◌≢◌, refl,
  arith, ap, if-cases,
}
use my_tracks.Text.{strip}
use my_tracks.Pairing.{get_api_key, Urls, Pairing, Crypto, is_pairing_id}
use my_tracks.Pairing.Operations.{
  StageRequest, Staging, accepted, stage_domesti_pairing, stage_with, staged_pending,
}
use my_tracks.Pairing.Keys.{outbound_key_matches, is_paired, relay_permission}

-- A staging either refuses and changes nothing, or goes on to the URLs with its checks passed.
stage-cases :
    (crypto : Crypto) (request : StageRequest) (urls : Option Urls) (now : ℕ) (config : Pairing)
    (P : Staging × Pairing → Type 0)
    → ((refusal : Staging) → ((e : ℕ) → refusal ≢ accepted e) → P (refusal, config))
    → (is_pairing_id (strip request.pairing_id) ≡ true
        → not (config.activated_pairing_id == "")
            && config.activated_pairing_id == strip request.pairing_id
          ≡ false
        → strip request.api_key == "" || strip request.outbound_api_key == "" ≡ false
        → P (
            stage_with crypto
              (strip request.pairing_id)
              (strip request.api_key)
              (strip request.outbound_api_key)
              urls
              now
              config))
    → P (stage_domesti_pairing crypto request urls now config)
unfolding stage_domesti_pairing
stage-cases crypto request urls now config P refuse go =
    if-cases P (not (is_pairing_id (strip request.pairing_id))) (λ a. refuse _ (λ e. cc))
      (λ a.
        if-cases P
          (not (config.activated_pairing_id == "")
            && config.activated_pairing_id == strip request.pairing_id)
          (λ b. refuse _ (λ e. cc))
          (λ b.
            if-cases P (strip request.api_key == "" || strip request.outbound_api_key == "")
              (λ c. refuse _ (λ e. cc))
              (λ c.
                if-cases P (strip request.api_key == strip request.outbound_api_key)
                  (λ d. refuse _ (λ e. cc)) (λ d. go (ground arith) b c))))

module _ (crypto : Crypto) (config : Pairing) (presented : String) (t : ℕ) where
  -- The keys accepted and the pairing that is active are those of `config`.
  abbrev KeptKeys : Staging × Pairing → Type 0
  KeptKeys result =
      (outbound_key_matches crypto result.1 presented t
        ≡ outbound_key_matches crypto config presented t)
      × (relay_permission crypto result.1 presented t ≡ relay_permission crypto config presented t)
      × (result.1.activated_pairing_id ≡ config.activated_pairing_id)

  stage_with-KeptKeys :
      (pairing_id inbound outbound : String) (urls : Option Urls) (now : ℕ)
      → KeptKeys (stage_with crypto pairing_id inbound outbound urls now config)
  unfolding outbound_key_matches is_paired relay_permission get_api_key
  stage_with-KeptKeys pairing_id inbound outbound none now = (refl, refl, refl)
  stage_with-KeptKeys pairing_id inbound outbound (some urls) now = (refl, refl, refl)

-- Whatever a request to stage a pairing contains, the same keys are accepted after it as before, at
-- every instant, by the comparison and by the permission of location requests, and the pairing that
-- is active stays so.
pub outbound_key_matches-stage_domesti_pairing :
    (crypto : Crypto) (request : StageRequest) (urls : Option Urls) (now : ℕ) (config : Pairing)
    (presented : String) (t : ℕ)
    → (outbound_key_matches crypto
          (stage_domesti_pairing crypto request urls now config).1
          presented
          t
        ≡ outbound_key_matches crypto config presented t)
      × (relay_permission crypto
            (stage_domesti_pairing crypto request urls now config).1
            presented
            t
          ≡ relay_permission crypto config presented t)
      × ((stage_domesti_pairing crypto request urls now config).1.activated_pairing_id
          ≡ config.activated_pairing_id)
outbound_key_matches-stage_domesti_pairing crypto request urls now config presented t =
    stage-cases crypto request urls now config (KeptKeys crypto config presented t)
      (λ refusal d. (refl, refl, refl))
      (λ id fresh keys. stage_with-KeptKeys crypto config presented t _ _ _ urls now)

-- What an accepted request has checked, and what it leaves pending.
pub record IsStaged (crypto : Crypto) (request : StageRequest) (config : Pairing) (e : ℕ)
    (c' : Pairing) : Type 0 where
  pub id : is_pairing_id (strip request.pairing_id) ≡ true
  pub fresh :
      not (config.activated_pairing_id == "")
        && config.activated_pairing_id == strip request.pairing_id
      ≡ false
  pub keys : strip request.api_key == "" || strip request.outbound_api_key == "" ≡ false
  pub urls : Urls
  pub changed : c' ≡ record config {
    pending_pairing = some (
        staged_pending crypto
          (strip request.pairing_id)
          (strip request.api_key)
          (strip request.outbound_api_key)
          urls
          e);
  }

accepted-injective : {m n : ℕ} → accepted m ≡ accepted n → m ≡ n
accepted-injective e = cc

stage_with-IsStaged :
    (crypto : Crypto) (request : StageRequest) (given : Option Urls) (now : ℕ) (config : Pairing)
    (e : ℕ)
    → is_pairing_id (strip request.pairing_id) ≡ true
    → not (config.activated_pairing_id == "")
        && config.activated_pairing_id == strip request.pairing_id
      ≡ false
    → strip request.api_key == "" || strip request.outbound_api_key == "" ≡ false
    → (stage_with crypto
        (strip request.pairing_id)
        (strip request.api_key)
        (strip request.outbound_api_key)
        given
        now
        config).0
      ≡ accepted e
    → IsStaged crypto request config e
        (stage_with crypto
          (strip request.pairing_id)
          (strip request.api_key)
          (strip request.outbound_api_key)
          given
          now
          config).1
stage_with-IsStaged crypto request none now config e id fresh keys done =
    absurd (let wrong = done in cc)
stage_with-IsStaged crypto request (some urls) now config e id fresh keys done = record {
  id = id;
  fresh = fresh;
  keys = keys;
  urls = urls;
  changed =
      ap
        (λ n. record config {
          pending_pairing = some (
              staged_pending crypto (strip request.pairing_id) (strip request.api_key)
                (strip request.outbound_api_key) urls n);
        })
        (accepted-injective done);
}

pub stage-IsStaged :
    (crypto : Crypto) (request : StageRequest) (given : Option Urls) (now : ℕ) (config : Pairing)
    (e : ℕ)
    → (stage_domesti_pairing crypto request given now config).0 ≡ accepted e
    → IsStaged crypto request config e (stage_domesti_pairing crypto request given now config).1
stage-IsStaged crypto request given now config e =
    stage-cases crypto request given now config
      (λ result. result.0 ≡ accepted e → IsStaged crypto request config e result.1)
      (λ refusal d done. absurd (d e done))
      (λ id fresh keys. stage_with-IsStaged crypto request given now config e id fresh keys)
