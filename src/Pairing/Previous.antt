-- ===== src/Pairing/Previous.antt =====
-- The digest of a key, and of the key that was valid before an activation.
use Prim.Native.String.{count}
use my_tracks.Base.{
  ◌<◌, ◌≤◌, String, Bool, false, not, leb, ◌==◌, compared_texts, ◌&&◌, ◌≡◌, refl, arith, sym, ◌∙◌,
  eq_iff, if-cases,
}
use my_tracks.Pairing.{
  Pairing, Crypto, verifier_matches, protocol_version_split, StoredKey, no_key, refused, key,
  get_api_key,
}
use my_tracks.Pairing.Operations.{previous_of, previous_verifier}

-- A key of 1 to 512 characters whose digest is the given one, which is not empty.
abbrev pub accepts : Crypto → String → String → Bool
accepts crypto presented digest =
    not (digest == "")
    && not (presented == "")
    && leb (count presented) 512
    && crypto.relay_key_verifier presented == digest

pub verifier_matches-accepts :
    (crypto : Crypto) (presented digest : String)
    → verifier_matches crypto presented digest ≡ accepts crypto presented digest
unfolding verifier_matches
verifier_matches-accepts crypto presented digest = ground arith

-- The digest of the key that was valid before an activation: the active verifier of protocol version 2,
-- or the digest of version 1's shared key, or the empty text where no shared key can be read.
pub data IsPreviousDigest (crypto : Crypto) (config : Pairing) : String → Type 0 where
  split : 2 ≤ config.protocol_version → IsPreviousDigest crypto config config.outbound_key_verifier
  shared :
      (raw : String)
      → config.protocol_version < 2
      → get_api_key crypto config ≡ key raw
      → (raw == "") ≡ false
      → IsPreviousDigest crypto config (crypto.relay_key_verifier raw)
  unkeyed :
      config.protocol_version < 2
      → ((raw : String) → get_api_key crypto config ≡ key raw → raw ≡ "")
      → IsPreviousDigest crypto config ""

previous_of-IsPreviousDigest :
    (crypto : Crypto) (config : Pairing) (stored : StoredKey)
    → config.protocol_version < 2
    → get_api_key crypto config ≡ stored
    → IsPreviousDigest crypto config (previous_of crypto stored)
previous_of-IsPreviousDigest crypto config no_key old e =
    unkeyed old (λ raw f. absurd (let wrong = sym e ∙ f in cc))
previous_of-IsPreviousDigest crypto config refused old e =
    unkeyed old (λ raw f. absurd (let wrong = sym e ∙ f in cc))
previous_of-IsPreviousDigest crypto config (key raw) old e =
    if-cases (IsPreviousDigest crypto config) (raw == "")
      (λ empty. unkeyed old (λ other f.
        let same : key raw ≡ key other = sym e ∙ f in
        let equal : raw ≡ other = cc in sym equal ∙ (eq_iff raw "").0 empty))
      (λ full. shared raw old e full)

pub previous_verifier-IsPreviousDigest :
    (crypto : Crypto) (config : Pairing)
    → IsPreviousDigest crypto config (previous_verifier crypto config)
unfolding previous_verifier
previous_verifier-IsPreviousDigest crypto config =
    if-cases (IsPreviousDigest crypto config) (leb protocol_version_split config.protocol_version)
      (λ new. split (ground arith))
      (λ old.
        previous_of-IsPreviousDigest crypto config (get_api_key crypto config) (ground arith) refl)
