-- ===== src/Webhook/Deliveries.antt =====
-- What a relay of a saved location may do: relay_location_to_domesti_bot of app/domesti_relay.py.
use my_tracks.Base.{
  ℕ, zero, suc, String, Option, none, some, List, [], ◌∷◌, ◌++◌, length, ◌≤◌, Bool, true, false,
  not, ◌||◌, ◌==◌, compared_texts, ◌≡◌, refl, sym, subst, arith, eq_iff, if-cases,
}
use my_tracks.Base.Table.{get-put}
use my_tracks.Json.{Json}
use my_tracks.Webhook.{
  Row, Payload, Entry, RelayConfig, Post, World, live, location_post_url_for_source, log_max,
  first_of, append_webhook_log_entry, already_relayed_location, record_relayed_location, is_success,
  location_relay_fingerprint, build_location_webhook_payload, send_location_webhook, entry_for,
  record_webhook_delivery_failure, settled, deliver_with, deliver, relay_for,
  relay_location_to_domesti_bot,
}

first_of_bound : (n : ℕ) (entries : List Entry) → length (first_of n entries) ≤ n
first_of_bound zero entries = omega arith
first_of_bound (suc n) [] = omega arith
first_of_bound (suc n) (e ∷ entries) = let rest = first_of_bound n entries in omega arith

log_bound :
    (entry : Entry) (config : RelayConfig)
    → length (append_webhook_log_entry entry config).recent_webhook_log ≤ log_max
unfolding append_webhook_log_entry
log_bound entry config = first_of_bound log_max (entry ∷ config.recent_webhook_log)

already_relayed-recorded :
    (user_id fingerprint : String) (config : RelayConfig)
    → already_relayed_location
        (record_relayed_location user_id fingerprint config)
        user_id
        fingerprint
      ≡ true
unfolding already_relayed_location record_relayed_location
already_relayed-recorded user_id fingerprint config =
    rw
      (
        get-put config.last_relayed_location_by_user user_id user_id fingerprint,
        (eq_iff user_id user_id).1 refl,
      )
      ((eq_iff fingerprint fingerprint).1 refl)

module _ (iso : ℕ → String) (as_float : String → Json) (row : Row) (w : World) where
  -- What allows a request: an owner, a pairing with updates on, a report that was not relayed last
  -- and an address and a key that are not empty.
  pub record Due (post : Post) : Type 0 where
    pub user_id : String
    pub owned : row.owner ≡ some user_id
    pub paired : w.config.is_paired ≡ true
    pub enabled : w.config.location_updates_enabled ≡ true
    pub new_report :
        already_relayed_location w.config user_id
          (location_relay_fingerprint iso as_float user_id row)
        ≡ false
    pub address : location_post_url_for_source w.config live ≡ some post.url
    pub key : w.config.api_key ≡ some post.api_key
    pub key_nonempty : (post.api_key == "") ≡ false
    pub body : post.payload ≡ build_location_webhook_payload iso as_float user_id row

  pub data Delivery (after : World) : Type 0 where
    silent : after ≡ w → Delivery after
    unsent :
        (entry : Entry)
        → entry.success ≡ false
        → after ≡ record w { config = append_webhook_log_entry entry w.config }
        → length after.config.recent_webhook_log ≤ log_max
        → Delivery after
    refused :
        (post : Post)
        → Due post
        → is_success (w.answers (length w.posts)) ≡ false
        → after.posts ≡ w.posts ++ post ∷ []
        → after.config.last_relayed_location_by_user ≡ w.config.last_relayed_location_by_user
        → length after.config.recent_webhook_log ≤ log_max
        → Delivery after
    delivered :
        (post : Post)
        → Due post
        → is_success (w.answers (length w.posts)) ≡ true
        → after.posts ≡ w.posts ++ post ∷ []
        → relay_location_to_domesti_bot iso as_float row after ≡ after
        → length after.config.recent_webhook_log ≤ log_max
        → Delivery after

  repeated :
      (user_id : String) (after : World)
      → row.owner ≡ some user_id
      → already_relayed_location after.config user_id
          (location_relay_fingerprint iso as_float user_id row)
        ≡ true
      → relay_location_to_domesti_bot iso as_float row after ≡ after
  unfolding relay_location_to_domesti_bot
  repeated user_id after owned known =
      subst (λ owner. relay_for iso as_float owner row after ≡ after) (sym owned)
        (if-cases (λ r. r ≡ after)
          (not after.config.is_paired || not after.config.location_updates_enabled) (λ _. refl)
          (λ _.
            if-cases (λ r. r ≡ after)
              (already_relayed_location after.config user_id
                (location_relay_fingerprint iso as_float user_id row))
              (λ _. refl) (λ new. cc)))

  sent-Delivery :
      (post : Post) (due : Due post) (b : Bool)
      → is_success (w.answers (length w.posts)) ≡ b
      → Delivery (
          settled iso as_float due.user_id
            (location_relay_fingerprint iso as_float due.user_id row)
            (b, (send_location_webhook iso as_float post.url post.api_key post.payload w).1))
  unfolding send_location_webhook record_relayed_location append_webhook_log_entry
  sent-Delivery post due true success =
      delivered post due success refl
        (repeated due.user_id
          (settled iso as_float due.user_id
            (location_relay_fingerprint iso as_float due.user_id row)
            (true, (send_location_webhook iso as_float post.url post.api_key post.payload w).1))
          due.owned
          (already_relayed-recorded due.user_id
            (location_relay_fingerprint iso as_float due.user_id row)
            (append_webhook_log_entry
              (entry_for iso as_float post.url post.payload (w.answers (length w.posts)))
              w.config)))
        (log_bound (entry_for iso as_float post.url post.payload (w.answers (length w.posts)))
          w.config)
  sent-Delivery post due false failure = refused post due failure refl refl (
      log_bound (entry_for iso as_float post.url post.payload (w.answers (length w.posts)))
        w.config)

  send-Delivery :
      (post : Post) (due : Due post)
      → Delivery (
          settled iso as_float due.user_id
            (location_relay_fingerprint iso as_float due.user_id row)
            (send_location_webhook iso as_float post.url post.api_key post.payload w))
  unfolding send_location_webhook
  send-Delivery post due = sent-Delivery post due (is_success (w.answers (length w.posts))) refl

  failed-Delivery :
      (url : String) (payload : Payload)
      → Delivery (record_webhook_delivery_failure iso as_float url payload w)
  failed-Delivery url payload =
      unsent (record { success = false; http_status = none; post_url = url; payload = payload })
        refl refl
        (log_bound
          (record { success = false; http_status = none; post_url = url; payload = payload })
          w.config)

  module _ (user_id : String) (owned : row.owner ≡ some user_id)
      (paired : w.config.is_paired ≡ true) (enabled : w.config.location_updates_enabled ≡ true)
      (new_report : already_relayed_location w.config user_id
          (location_relay_fingerprint iso as_float user_id row)
        ≡ false) where
    deliver_with-Delivery :
        (url : String) (key : Option String)
        → location_post_url_for_source w.config live ≡ some url
        → w.config.api_key ≡ key
        → Delivery (
            deliver_with iso as_float user_id
              (location_relay_fingerprint iso as_float user_id row)
              url
              key
              (build_location_webhook_payload iso as_float user_id row)
              w)
    deliver_with-Delivery url none address key =
        failed-Delivery url (build_location_webhook_payload iso as_float user_id row)
    deliver_with-Delivery url (some api_key) address key =
        if-cases Delivery (api_key == "")
          (λ _. failed-Delivery url (build_location_webhook_payload iso as_float user_id row))
          (λ nonempty.
            send-Delivery
              (record {
                url = url;
                api_key = api_key;
                payload = build_location_webhook_payload iso as_float user_id row;
              })
              (record {
                user_id = user_id;
                owned = owned;
                paired = paired;
                enabled = enabled;
                new_report = new_report;
                address = address;
                key = key;
                key_nonempty = nonempty;
                body = refl;
              }))

    deliver-Delivery :
        (url : Option String)
        → location_post_url_for_source w.config live ≡ url
        → Delivery (
            deliver iso as_float user_id
              (location_relay_fingerprint iso as_float user_id row)
              url
              (build_location_webhook_payload iso as_float user_id row)
              w)
    deliver-Delivery none address = silent refl
    deliver-Delivery (some url) address = deliver_with-Delivery url w.config.api_key address refl

  relay_for-Delivery :
      (owner : Option String) → row.owner ≡ owner → Delivery (relay_for iso as_float owner row w)
  relay_for-Delivery none owned = silent refl
  relay_for-Delivery (some user_id) owned =
      if-cases Delivery (not w.config.is_paired || not w.config.location_updates_enabled)
        (λ _. silent refl)
        (λ allowed.
          if-cases Delivery
            (already_relayed_location w.config user_id
              (location_relay_fingerprint iso as_float user_id row))
            (λ _. silent refl)
            (λ new_report.
              deliver-Delivery user_id owned (ground arith) (ground arith) new_report
                (location_post_url_for_source w.config live) refl))

  -- For every saved location, configuration and answer: relaying leaves everything as it was, or
  -- only adds a failed entry to the log, or makes exactly one request. A request needs an owner, a
  -- pairing with updates on, a fingerprint other than the owner's last delivered one, an address
  -- and a key; it carries that address, that key and the location's payload. If it is not answered
  -- by a 2xx, the last delivered fingerprints stay; if it is, relaying the same location again
  -- changes nothing. Wherever the log changes, at most five entries are left in it.
  pub relay_location_to_domesti_bot-Delivery :
      Delivery (relay_location_to_domesti_bot iso as_float row w)
  unfolding relay_location_to_domesti_bot
  relay_location_to_domesti_bot-Delivery = relay_for-Delivery row.owner refl
