-- ===== src/Pairing/Keys.antt =====
-- Which keys authenticate domesti-bot: the methods of DomestiBotConfig and the two permissions.
use my_tracks.Base.{
  ℕ, String, Option, none, some, Bool, true, false, not, leb, ltb, ◌==◌, compared_texts, ◌&&◌, ◌||◌,
  if◌then◌else◌,
}
use my_tracks.Text.{strip}
use my_tracks.Pairing.{
  Pending, Pairing, Crypto, StoredKey, no_key, refused, key, get_api_key, verifier_matches,
  relay_api_keys_match, pending_pairing_is_live, text_or_empty, is_some, protocol_version_split,
}

-- `expires is not None and expires > timezone.now()`
abbrev pub not_over : Option ℕ → ℕ → Bool
not_over none now = false
not_over (some expires) now = ltb now expires

-- The shared key of protocol 1. An unreadable stored key raises an exception: nothing is let in.
abbrev pub shared_key_matches : String → StoredKey → Bool
shared_key_matches presented no_key = false
shared_key_matches presented refused = false
shared_key_matches presented (key stored) =
    not (stored == "") && relay_api_keys_match presented stored

unfoldable pub outbound_key_matches : Crypto → Pairing → String → ℕ → Bool
outbound_key_matches crypto config presented now =
    if leb protocol_version_split config.protocol_version
    then (if verifier_matches crypto presented config.outbound_key_verifier
        then true
        else not (config.previous_outbound_key_verifier == "")
          && not_over config.previous_outbound_key_expires_at now
          && verifier_matches crypto presented config.previous_outbound_key_verifier)
    else shared_key_matches presented (get_api_key crypto config)

abbrev pub pending_matches : Crypto → Option Pending → String → String → Bool
pending_matches crypto none presented pairing_id = false
pending_matches crypto (some pending) presented pairing_id =
    text_or_empty pending.pairing_id == pairing_id
    && verifier_matches crypto presented (text_or_empty pending.outbound_key_verifier)

unfoldable pub pending_outbound_key_matches : Crypto → Pairing → String → String → ℕ → Bool
pending_outbound_key_matches crypto config presented pairing_id now =
    not (pairing_id == "")
    && pending_pairing_is_live config.pending_pairing now
    && pending_matches crypto config.pending_pairing presented pairing_id

unfoldable pub is_paired : Pairing → Bool
is_paired config = is_some config.paired_at && not (config.encrypted_api_key == "")

-- DomestiRelayApiKeyPermission.has_permission, over the header's value or the empty text
unfoldable pub relay_permission : Crypto → Pairing → String → ℕ → Bool
relay_permission crypto config header now =
    if not (is_paired config)
    then false
    else if not config.remote_request_location_enabled
    then false
    else if strip header == "" || not (outbound_key_matches crypto config (strip header) now)
    then false
    else true

-- DomestiRelayAuthCheckPermission.has_permission: which key was accepted.
pub data AuthCheck : Type 0 where
  denied pending_key active_key : AuthCheck

unfoldable pub auth_check_permission : Crypto → Pairing → String → String → ℕ → ℕ → AuthCheck
auth_check_permission crypto config header pairing_header checked now =
    if strip header == ""
    then denied
    else if not (strip pairing_header == "")
        && pending_outbound_key_matches crypto config (strip header) (strip pairing_header) checked
    then pending_key
    else if is_paired config && outbound_key_matches crypto config (strip header) now
    then active_key
    else denied
