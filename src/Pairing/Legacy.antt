-- ===== src/Pairing/Legacy.antt =====
-- The pairing of protocol version 1.
use Prim.Native.String.{count}
use my_tracks.Base.{
  ℕ, String, Option, none, some, false, leb, ◌&&◌, ◌==◌, compared_texts, ◌≡◌, arith, subst, inl,
  inr, Bool-cases,
}
use mathlib.Core.Option.{some-injective}
use my_tracks.Text.{strip}
use my_tracks.Pairing.{
  Urls, Pairing, Crypto, get_api_key, relay_api_keys_match, pending_pairing_is_live,
}
use my_tracks.Pairing.Operations.{pair_domesti_bot, pair_with}
use my_tracks.Pairing.Keys.{outbound_key_matches, pending_outbound_key_matches}

-- What the cipher promises: what it has encrypted is not empty, and it decrypts to the same text.
pub record IsCipher (crypto : Crypto) : Type 0 where
  pub decrypts : (raw : String) → crypto.decrypt_api_key (crypto.encrypt_api_key raw) ≡ some raw
  pub not_empty : (raw : String) → (crypto.encrypt_api_key raw == "") ≡ false

keys_match :
    (presented shared : String)
    → relay_api_keys_match presented shared ≡ (presented == shared && leb (count presented) 512)
unfolding relay_api_keys_match
keys_match presented shared = ground arith

module _ (crypto : Crypto) (cipher : IsCipher crypto) (presented : String) (t : ℕ) where
  pair_with-keys :
      (shared id : String) (full : (shared == "") ≡ false) (urls : Option Urls) (now : ℕ)
      (config c' : Pairing)
      → pair_with crypto shared urls now config ≡ some c'
      → (outbound_key_matches crypto c' presented t
          ≡ (presented == shared && leb (count presented) 512))
        × (pending_outbound_key_matches crypto c' presented id t ≡ false)
  unfolding outbound_key_matches pending_outbound_key_matches get_api_key pending_pairing_is_live
  pair_with-keys shared id full none now config c' e = absurd (let wrong = e in cc)
  pair_with-keys shared id full (some urls) now config c' e =
      subst
        (λ c.
          (outbound_key_matches crypto c presented t
            ≡ (presented == shared && leb (count presented) 512))
          × (pending_outbound_key_matches crypto c presented id t ≡ false))
        (some-injective _ _ e)
        (
          rw (cipher.not_empty shared, cipher.decrypts shared, full) (keys_match presented shared),
          ground arith,
        )

-- After a pairing in protocol version 1, with a cipher that decrypts what it has encrypted, a key is
-- accepted, at every instant, exactly if it is the given one without the blanks around it and has at most
-- 512 characters; no key is accepted as a pending one.
pub outbound_key_matches-pair_domesti_bot :
    (crypto : Crypto) (api_key presented id : String) (urls : Option Urls) (now t : ℕ)
    (config c' : Pairing)
    → IsCipher crypto
    → pair_domesti_bot crypto api_key urls now config ≡ some c'
    → (outbound_key_matches crypto c' presented t
        ≡ (presented == strip api_key && leb (count presented) 512))
      × (pending_outbound_key_matches crypto c' presented id t ≡ false)
unfolding pair_domesti_bot
outbound_key_matches-pair_domesti_bot crypto api_key presented id urls now t config c' cipher e =
    elim (Bool-cases (strip api_key == "")) [
      | inl empty ↦ absurd (let wrong : none ≡ some c' = rw empty at e in cc)
      | inr full ↦
          pair_with-keys crypto cipher presented t (strip api_key) id full urls now config c'
            (rw full at e)
    ]
