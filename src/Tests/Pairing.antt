-- ===== src/Tests/Pairing.antt =====
-- A first pairing is staged, activated within half an hour, and activated again. The digest and the
-- cipher of the tests put a letter in front.
use Prim.Native.String.{String, [], ◌∷◌, ◌++◌, count}
use my_tracks.Base.{
  ◌+◌, none, some, true, false, ltb, ◌≤◌, ◌||◌, ◌&&◌, ◌≡◌, ◌≢◌, ap, ◌==◌, compared_texts, refl,
  arith,
}
use my_tracks.Text.{strip}
use my_tracks.Pairing.{
  Pending, Urls, Pairing, active, staged, Crypto, is_pairing_id, get_api_key, pairing_status,
  pending_is_well_formed, pending_pairing_is_live, max_relay_key_length,
}
use my_tracks.Pairing.Operations.{
  previous_verifier, promote, StageRequest, accepted, stage_domesti_pairing, staged_pending,
  activate_domesti_pairing,
}
use my_tracks.Pairing.Keys.{outbound_key_matches, pending_outbound_key_matches, relay_permission}
use my_tracks.Pairing.Switch.{outbound_key_matches-stage_domesti_pairing}
use my_tracks.Pairing.Previous.{IsPreviousDigest, accepts}
use my_tracks.Pairing.Activation.{
  outbound_key_matches-activate_domesti_pairing, stage_domesti_pairing_active,
}
use my_tracks.Pairing.Legacy.{IsCipher, outbound_key_matches-pair_domesti_bot}
use my_tracks.Base.{String, ◌*◌, leb, Option, Bool-cases, eq_iff, inl, inr}
use text.Mathlib.TextLemmas.{cons≢nil}
use my_tracks.Pairing.{aborted}
use my_tracks.Pairing.Operations.{abort_domesti_pairing, pair_domesti_bot}
use my_tracks.Pairing.Idempotent.{activate_domesti_pairing_again}

abbrev crypto : Crypto
crypto = record {
  relay_key_verifier = λ key. "d" ++ key;
  encrypt_api_key = λ key. "e" ++ key;
  decrypt_api_key = λ text. some text;
}

abbrev urls : Urls
urls = record { test = "http://d/t"; update = "http://d/u"; base = "http://d" }

abbrev blank : Pairing
blank = record {
  encrypted_api_key = "";
  paired_at = none;
  protocol_version = 1;
  outbound_key_verifier = "";
  previous_outbound_key_verifier = "";
  previous_outbound_key_expires_at = none;
  pending_pairing = none;
  activated_pairing_id = "";
  location_updates_enabled = false;
  remote_request_location_enabled = false;
  urls = record { test = ""; update = ""; base = "" };
}

abbrev request : StageRequest
request = record { pairing_id = "pair-0001"; api_key = "in"; outbound_api_key = "out" }

abbrev pending : Pending
pending = staged_pending crypto "pair-0001" "in" "out" urls 1800000005

abbrev config : Pairing
config = record blank { pending_pairing = some pending }

stage_runs :
    stage_domesti_pairing crypto request (some urls) 5 blank ≡ (accepted 1800000005, config)
unfolding stage_domesti_pairing is_pairing_id strip
stage_runs = refl

is_now_staged : pairing_status config "pair-0001" 10 ≡ staged
unfolding pairing_status pending_is_well_formed pending_pairing_is_live
is_now_staged = refl

abbrev paired : Pairing
paired = record {
  encrypted_api_key = "ein";
  paired_at = some 11;
  protocol_version = 2;
  outbound_key_verifier = "dout";
  previous_outbound_key_verifier = "";
  previous_outbound_key_expires_at = none;
  pending_pairing = none;
  activated_pairing_id = "pair-0001";
  location_updates_enabled = true;
  remote_request_location_enabled = false;
  urls = urls;
}

activation_runs : activate_domesti_pairing crypto "pair-0001" 10 11 config ≡ (active, paired)
unfolding activate_domesti_pairing pairing_status pending_is_well_formed pending_pairing_is_live
    promote previous_verifier get_api_key
activation_runs = refl

outbound_key_matches-stage_domesti_pairing_example :
    (outbound_key_matches crypto
        (stage_domesti_pairing crypto request (some urls) 5 blank).1
        "out"
        9
      ≡ outbound_key_matches crypto blank "out" 9)
    × (relay_permission crypto (stage_domesti_pairing crypto request (some urls) 5 blank).1 "out" 9
        ≡ relay_permission crypto blank "out" 9)
    × ((stage_domesti_pairing crypto request (some urls) 5 blank).1.activated_pairing_id ≡ "")
outbound_key_matches-stage_domesti_pairing_example =
    outbound_key_matches-stage_domesti_pairing crypto request (some urls) 5 blank "out" 9

outbound_key_matches-activate_domesti_pairing_example :
    (previous : String) × IsPreviousDigest crypto config previous
    × (outbound_key_matches crypto
          (activate_domesti_pairing crypto "pair-0001" 10 11 config).1
          "out"
          12
        ≡ (accepts crypto "out" "dout"
            || ltb 12 (11 + 60 * 1000000) && accepts crypto "out" previous))
outbound_key_matches-activate_domesti_pairing_example =
    outbound_key_matches-activate_domesti_pairing crypto "pair-0001" 10 11 config pending "ein"
      "out" 12 refl refl is_now_staged

out_is : strip "out" ≡ "out"
unfolding strip
out_is = refl

out_short : count (strip "out") ≤ max_relay_key_length
out_short = rw out_is (omega arith)

out_digest : crypto.relay_key_verifier (strip "out") ≢ ""
out_digest = rw out_is (λ e. (let wrong : false ≡ true = ap (λ s. s == "") e in cc))

stage_accepted : (stage_domesti_pairing crypto request (some urls) 5 blank).0 ≡ accepted 1800000005
unfolding stage_domesti_pairing is_pairing_id strip
stage_accepted = refl

stage_domesti_pairing_active_example :
    ((activate_domesti_pairing crypto
        (strip "pair-0001")
        10
        11
        (stage_domesti_pairing crypto request (some urls) 5 blank).1).0
      ≡ active)
    × (outbound_key_matches crypto
          (activate_domesti_pairing crypto
            (strip "pair-0001")
            10
            11
            (stage_domesti_pairing crypto request (some urls) 5 blank).1).1
          (strip "out")
          12
        ≡ true)
stage_domesti_pairing_active_example =
    stage_domesti_pairing_active crypto request (some urls) 5 10 11 12 1800000005 blank
      stage_accepted (omega arith) out_short out_digest

activate_domesti_pairing_again_example :
    activate_domesti_pairing crypto "pair-0001" 20 21 paired ≡ (active, paired)
activate_domesti_pairing_again_example =
    activate_domesti_pairing_again crypto "pair-0001" 10 11 20 21 config paired activation_runs

abort_runs : (abort_domesti_pairing "pair-0001" 10 config).0 ≡ aborted
unfolding abort_domesti_pairing pairing_status pending_is_well_formed pending_pairing_is_live
abort_runs = refl

tail : String → Option String
tail [] = none
tail (c ∷ s) = some s

abbrev plain_crypto : Crypto
plain_crypto = record {
  relay_key_verifier = λ key. "d" ++ key;
  encrypt_api_key = λ key. "e" ∷ key;
  decrypt_api_key = tail;
}

prefixed : (raw : String) → ("e" ∷ raw == "") ≡ false
prefixed raw = elim (Bool-cases ("e" ∷ raw == "")) [
  | inl empty ↦ absurd (cons≢nil ((eq_iff ("e" ∷ raw) "").0 empty))
  | inr full ↦ full
]

plain_crypto-IsCipher : IsCipher plain_crypto
unfolding tail
plain_crypto-IsCipher = record { decrypts = λ raw. refl; not_empty = prefixed }

abbrev legacy : Pairing
legacy = record blank {
  encrypted_api_key = "ekey";
  paired_at = some 30;
  location_updates_enabled = true;
  urls = urls;
}

pair_runs : pair_domesti_bot plain_crypto " key " (some urls) 30 paired ≡ some legacy
unfolding pair_domesti_bot strip
pair_runs = refl

outbound_key_matches-pair_domesti_bot_example :
    (outbound_key_matches plain_crypto legacy "key" 40
      ≡ ("key" == strip " key " && leb (count "key") 512))
    × (pending_outbound_key_matches plain_crypto legacy "key" "pair-0001" 40 ≡ false)
outbound_key_matches-pair_domesti_bot_example =
    outbound_key_matches-pair_domesti_bot plain_crypto " key " "key" "pair-0001" (some urls) 30 40
      paired legacy plain_crypto-IsCipher pair_runs
