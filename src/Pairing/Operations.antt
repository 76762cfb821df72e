-- ===== src/Pairing/Operations.antt =====
-- Staging, activation and abortion of a pairing, and the pairing of protocol version 1: app/domesti_bot.py.
use my_tracks.Base.{
  ℕ, ◌+◌, String, Option, none, some, true, not, leb, ◌==◌, compared_texts, compared_numbers, ◌&&◌,
  ◌||◌, if◌then◌else◌,
}
use my_tracks.Text.{strip}
use my_tracks.Requests.Settings.{seconds, at}
use my_tracks.Pairing.{
  Encoded, Pending, Urls, Pairing, protocol_version_split, text_or_empty, is_pairing_id,
  pending_is_well_formed, Status, pairing_status, without_pending, Crypto, StoredKey, get_api_key,
  bytes, undecodable, active, staged, expired, unknown, aborted, no_key, refused, key,
}

unfoldable pub abort_domesti_pairing : String → ℕ → Pairing → Status × Pairing
abort_domesti_pairing pairing_id now config = elim (pairing_status config pairing_id now) [
  | staged ↦ (aborted, without_pending config)
  | expired ↦ (aborted, without_pending config)
  | active ↦ (active, config)
  | unknown ↦ (unknown, config)
  | aborted ↦ (aborted, config)
]

-- The verifier of the key that was valid until now, or the empty text.
abbrev pub previous_of : Crypto → StoredKey → String
previous_of crypto no_key = ""
previous_of crypto refused = ""
previous_of crypto (key raw) = if raw == "" then "" else crypto.relay_key_verifier raw

unfoldable pub previous_verifier : Crypto → Pairing → String
previous_verifier crypto config =
    if leb protocol_version_split config.protocol_version
    then config.outbound_key_verifier
    else previous_of crypto (get_api_key crypto config)

-- previous_key_grace = timedelta(seconds=60)
abbrev pub previous_key_grace : ℕ
previous_key_grace = seconds 60

unfoldable pub promote : Crypto → String → ℕ → Pending → String → Pairing → Pairing
promote crypto pairing_id now pending inbound config = record {
  previous_outbound_key_verifier = previous_verifier crypto config;
  previous_outbound_key_expires_at =
      if previous_verifier crypto config == "" then none else some (now + previous_key_grace);
  encrypted_api_key = inbound;
  outbound_key_verifier = text_or_empty pending.outbound_key_verifier;
  protocol_version = protocol_version_split;
  urls = record {
    test = text_or_empty pending.user_location_test_url;
    update = text_or_empty pending.user_location_update_url;
    base = text_or_empty pending.domesti_base_url;
  };
  paired_at = some now;
  location_updates_enabled = true;
  remote_request_location_enabled = config.remote_request_location_enabled;
  activated_pairing_id = pairing_id;
  pending_pairing = none;
}

abbrev pub promote_decoded :
    Crypto → String → ℕ → Pending → Option Encoded → Pairing → Status × Pairing
promote_decoded crypto pairing_id now pending (some (bytes inbound)) config =
    (active, promote crypto pairing_id now pending inbound config)
promote_decoded crypto pairing_id now pending (some undecodable) config =
    (unknown, without_pending config)
promote_decoded crypto pairing_id now pending none config = (unknown, without_pending config)

abbrev pub promote_pending : Crypto → String → ℕ → Option Pending → Pairing → Status × Pairing
promote_pending crypto pairing_id now none config = (unknown, config)
promote_pending crypto pairing_id now (some pending) config =
    promote_decoded crypto pairing_id now pending pending.encrypted_api_key config

abbrev pub drop_malformed : Option Pending → Pairing → Pairing
drop_malformed none config = config
drop_malformed (some pending) config =
    if pending_is_well_formed pending then config else without_pending config

unfoldable pub activate_domesti_pairing : Crypto → String → ℕ → ℕ → Pairing → Status × Pairing
activate_domesti_pairing crypto pairing_id checked now config =
    elim (pairing_status config pairing_id checked) [
      | staged ↦ promote_pending crypto pairing_id now config.pending_pairing config
      | expired ↦ (expired, without_pending config)
      | active ↦ (active, drop_malformed config.pending_pairing config)
      | unknown ↦ (unknown, drop_malformed config.pending_pairing config)
      | aborted ↦ (aborted, drop_malformed config.pending_pairing config)
    ]

pub record StageRequest : Type 0 where
  pub pairing_id : String
  pub api_key : String
  pub outbound_api_key : String

pub data Staging : Type 0 where
  bad_pairing_id pairing_id_in_use keys_missing keys_equal bad_urls : Staging
  accepted : ℕ → Staging

-- timedelta(seconds=PENDING_PAIRING_TTL_SECONDS)
abbrev pub pending_pairing_ttl : ℕ
pending_pairing_ttl = seconds 1800

abbrev pub staged_pending : Crypto → String → String → String → Urls → ℕ → Pending
staged_pending crypto pairing_id inbound outbound urls expires = record {
  pairing_id = some pairing_id;
  expires_at = some (at expires);
  encrypted_api_key = some (bytes (crypto.encrypt_api_key inbound));
  outbound_key_verifier = some (crypto.relay_key_verifier outbound);
  user_location_test_url = some urls.test;
  user_location_update_url = some urls.update;
  domesti_base_url = some urls.base;
}

abbrev pub stage_with :
    Crypto → String → String → String → Option Urls → ℕ → Pairing → Staging × Pairing
stage_with crypto pairing_id inbound outbound none now config = (bad_urls, config)
stage_with crypto pairing_id inbound outbound (some urls) now config = (
  accepted (now + pending_pairing_ttl),
  record config {
    pending_pairing =
        some (staged_pending crypto pairing_id inbound outbound urls (now + pending_pairing_ttl));
  },
)

-- `urls` is what the validation of the request's URLs gives, or `none` where it raises a ValueError.
unfoldable pub stage_domesti_pairing :
    Crypto → StageRequest → Option Urls → ℕ → Pairing → Staging × Pairing
stage_domesti_pairing crypto request urls now config =
    let pairing_id = strip request.pairing_id in
    let inbound = strip request.api_key in
    let outbound = strip request.outbound_api_key in
    if not (is_pairing_id pairing_id)
    then (bad_pairing_id, config)
    else if not (config.activated_pairing_id == "") && config.activated_pairing_id == pairing_id
    then (pairing_id_in_use, config)
    else if inbound == "" || outbound == ""
    then (keys_missing, config)
    else if inbound == outbound
    then (keys_equal, config)
    else stage_with crypto pairing_id inbound outbound urls now config

-- Pairing in protocol version 1, with one key for both directions. `urls` is as above.
abbrev pub pair_with : Crypto → String → Option Urls → ℕ → Pairing → Option Pairing
pair_with crypto shared none now config = none
pair_with crypto shared (some urls) now config = some (record {
  encrypted_api_key = crypto.encrypt_api_key shared;
  protocol_version = 1;
  outbound_key_verifier = "";
  previous_outbound_key_verifier = "";
  previous_outbound_key_expires_at = none;
  pending_pairing = none;
  activated_pairing_id = "";
  urls = urls;
  paired_at = some now;
  location_updates_enabled = true;
  remote_request_location_enabled = config.remote_request_location_enabled;
})

-- `none` is a ValueError, before which nothing is written.
unfoldable pub pair_domesti_bot : Crypto → String → Option Urls → ℕ → Pairing → Option Pairing
pair_domesti_bot crypto api_key urls now config =
    if strip api_key == "" then none else pair_with crypto (strip api_key) urls now config
