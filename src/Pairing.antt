-- ===== src/Pairing.antt =====
-- The pairing with domesti-bot in protocol version 2, and the keys that authenticate it:
-- app/domesti_bot.py, app/domesti_relay_keys.py, app/domesti_bot_auth.py and the fields and methods of
-- DomestiBotConfig in app/models.py. Instants are microseconds, read once or twice by a call in the
-- order in which its arguments name them.
pub mod Operations
pub mod Keys
pub mod Switch
pub mod Previous
pub mod Activation
pub mod Idempotent
pub mod Legacy
pub mod Probe
use Prim.Native.Char.{code}
use Prim.Native.String.{[], ◌∷◌, count}
use my_tracks.Base.{
  ℕ, ◌+◌, String, Option, none, some, Bool, true, false, not, leb, ltb, ◌==◌, compared_texts,
  compared_numbers, ◌&&◌, ◌||◌, if◌then◌else◌,
}
use my_tracks.Text.{strip}
use my_tracks.Requests.Settings.{seconds, Stamp, at, unreadable}

-- A base64 text stands for the bytes that it encodes.
pub data Encoded : Type 0 where
  bytes : String → Encoded
  undecodable : Encoded

-- `pending_pairing`, when it is not empty: `none` is a key that is missing or holds no text.
pub record Pending : Type 0 where
  pub pairing_id : Option String
  pub expires_at : Option Stamp
  pub encrypted_api_key : Option Encoded
  pub outbound_key_verifier : Option String
  pub user_location_test_url : Option String
  pub user_location_update_url : Option String
  pub domesti_base_url : Option String

pub record Urls : Type 0 where
  pub test : String
  pub update : String
  pub base : String

pub record Pairing : Type 0 where
  pub encrypted_api_key : String
  pub paired_at : Option ℕ
  pub protocol_version : ℕ
  pub outbound_key_verifier : String
  pub previous_outbound_key_verifier : String
  pub previous_outbound_key_expires_at : Option ℕ
  pub pending_pairing : Option Pending
  pub activated_pairing_id : String
  pub location_updates_enabled : Bool
  pub remote_request_location_enabled : Bool
  pub urls : Urls

abbrev pub protocol_version_split : ℕ
protocol_version_split = 2

abbrev pub max_relay_key_length : ℕ
max_relay_key_length = 512

abbrev pub text_or_empty : Option String → String
text_or_empty none = ""
text_or_empty (some s) = s

abbrev pub is_some {ℓ} : {A : Type ℓ} → Option A → Bool
is_some none = false
is_some (some a) = true

-- The pattern's characters.
abbrev is_id_char : ℕ → Bool
is_id_char c =
    leb b'A' c && leb c b'Z'
    || leb b'a' c && leb c b'z'
    || leb b'0' c && leb c b'9'
    || c == b'_'
    || c == b'-'

all_id_chars : String → Bool
all_id_chars [] = true
all_id_chars (c ∷ s) = is_id_char (code c) && all_id_chars s

-- _PAIRING_ID_RE.fullmatch(text)
unfoldable pub is_pairing_id : String → Bool
unfolding all_id_chars
is_pairing_id text = all_id_chars text && leb 8 (count text) && leb (count text) 64

abbrev pub live_stamp : Option Stamp → ℕ → Bool
live_stamp none now = false
live_stamp (some unreadable) now = false
live_stamp (some (at expires)) now = ltb now expires

unfoldable pub pending_pairing_is_live : Option Pending → ℕ → Bool
pending_pairing_is_live none now = false
pending_pairing_is_live (some pending) now = live_stamp pending.expires_at now

unfoldable pub pending_is_well_formed : Pending → Bool
pending_is_well_formed pending =
    is_some pending.pairing_id
    && is_some pending.expires_at
    && is_some pending.encrypted_api_key
    && is_some pending.outbound_key_verifier
    && is_some pending.user_location_test_url
    && is_some pending.user_location_update_url
    && is_some pending.domesti_base_url

pub data Status : Type 0 where
  active staged expired unknown aborted : Status

abbrev pub names_pending : Option Pending → String → Bool
names_pending none pairing_id = false
names_pending (some pending) pairing_id =
    pending_is_well_formed pending && text_or_empty pending.pairing_id == pairing_id

unfoldable pub pairing_status : Pairing → String → ℕ → Status
unfolding pending_is_well_formed
pairing_status config pairing_id now =
    if not (pairing_id == "") && config.activated_pairing_id == pairing_id
    then active
    else if not (pairing_id == "") && names_pending config.pending_pairing pairing_id
    then (if pending_pairing_is_live config.pending_pairing now then staged else expired)
    else unknown

-- `config.pending_pairing = {}`
abbrev pub without_pending : Pairing → Pairing
without_pending config = record config { pending_pairing = none }

-- The keyed digest of `relay_key_verifier`, and the cipher, which refuses a text that is not its own.
pub record Crypto : Type 0 where
  pub relay_key_verifier : String → String
  pub encrypt_api_key : String → String
  pub decrypt_api_key : String → Option String

-- The digest is hexadecimal, so that replacing what is not ASCII in the verifier changes nothing.
unfoldable pub verifier_matches : Crypto → String → String → Bool
verifier_matches crypto presented verifier =
    if verifier == "" || presented == "" || ltb max_relay_key_length (count presented)
    then false
    else crypto.relay_key_verifier presented == verifier

unfoldable pub relay_api_keys_match : String → String → Bool
relay_api_keys_match provided stored =
    if ltb max_relay_key_length (count provided) then false else provided == stored

-- What `get_api_key` does: None without a key, an exception (`refused`) on a key that is not readable.
pub data StoredKey : Type 0 where
  no_key refused : StoredKey
  key : String → StoredKey

abbrev decrypted : Option String → StoredKey
decrypted none = refused
decrypted (some raw) = key raw

unfoldable pub get_api_key : Crypto → Pairing → StoredKey
get_api_key crypto config =
    if config.encrypted_api_key == ""
    then no_key
    else decrypted (crypto.decrypt_api_key config.encrypted_api_key)
