-- ===== src/Handlers/Dispatch.antt =====
-- Which callbacks a message reaches: OwnTracksMessageHandler.handle_message of app/mqtt/handlers.py.
use my_tracks.Base.{
  ℕ, String, Option, none, some, List, [], map, Bool, ◌≡◌, refl, sym, ap, ◌∙◌, inl, inr, subst,
}
use mathlib.Core.Option.{some-injective}
use my_tracks.Json.{Json, Fields}
use my_tracks.Numbers.{Try, ok, raised}
use my_tracks.Topic.{TopicInfo, parse_owntracks_topic}
use my_tracks.Extraction.{Data, value_of}
use my_tracks.Handlers.{
  Loaded, parse_owntracks_message, Handler, Handled, Origin, deliver, route, routed, received,
  handle_message,
}
use my_tracks.Handlers.Kinds.{
  Kind, type_name, callbacks_of, data_of, extras_of, calls, calls-run_callbacks,
  type_name_injective, route-deliver, route-unknown, Kind-cases,
}

module _ (raises : ℕ → Data → Bool) (loads : List ℕ → Loaded) (h : Handler) (topic : String)
    (payload : Option (List ℕ)) (origin : Origin) where
  -- A message with data for the callbacks of a kind: the topic is an OwnTracks topic, the payload a
  -- dictionary of that kind, and the data of the kind is read from it.
  pub record Deliverable : Type 0 where
    pub info : TopicInfo
    pub message : Fields
    pub k : Kind
    pub d : Data
    pub topic_read : parse_owntracks_topic topic ≡ some info
    pub payload_read : parse_owntracks_message loads payload ≡ ok (some message)
    pub typed : value_of message "_type" ≡ Json.text (type_name k)
    pub extracted : data_of k message info topic origin ≡ ok (some d)

  -- What `handle_message` does: nothing at all is called, and then there was no such data, or each
  -- callback of the kind is called once, in the order of registration, with the data and what the topic
  -- and the session tell of its sender.
  pub data Dispatch (r : Handled) : Type 0 where
    quiet : r.0 ≡ [] → (Deliverable → ⊥) → Dispatch r
    delivered :
        (m : Deliverable)
        → calls r.0 ≡ map (λ c. (c, extras_of m.k origin m.info.user m.d)) (callbacks_of m.k h)
        → r.1 ≡ ok tt
        → Dispatch r

  -- The data of a message is one.
  unique :
      (info : TopicInfo) (message : Fields) (k : Kind)
      → parse_owntracks_topic topic ≡ some info
      → parse_owntracks_message loads payload ≡ ok (some message)
      → value_of message "_type" ≡ Json.text (type_name k)
      → (m : Deliverable) → data_of k message info topic origin ≡ ok (some m.d)
  unique info message k topic_read payload_read typed m =
      let same_info : info ≡ m.info = some-injective _ _ (sym topic_read ∙ m.topic_read) in
      let same_message : message ≡ m.message = cc (payload_read, m.payload_read) in
      let same_kind : k ≡ m.k =
        type_name_injective k m.k
          (sym typed ∙ ap (λ x. value_of x "_type") same_message ∙ m.typed) in
      (λ i. data_of (same_kind i) (same_message i) (same_info i) topic origin) ∙ m.extracted

  deliver-Dispatch :
      (info : TopicInfo) (message : Fields) (k : Kind) (t : Try (Option Data))
      → parse_owntracks_topic topic ≡ some info
      → parse_owntracks_message loads payload ≡ ok (some message)
      → value_of message "_type" ≡ Json.text (type_name k)
      → data_of k message info topic origin ≡ t
      → Dispatch (deliver raises (callbacks_of k h) (extras_of k origin info.user) t)
  deliver-Dispatch info message k (ok (some d)) topic_read payload_read typed e =
      delivered
        (record {
          info = info;
          message = message;
          k = k;
          d = d;
          topic_read = topic_read;
          payload_read = payload_read;
          typed = typed;
          extracted = e;
        })
        (calls-run_callbacks raises (callbacks_of k h) (extras_of k origin info.user d)) refl
  deliver-Dispatch info message k (ok none) topic_read payload_read typed e =
      quiet refl (λ m. let there = unique info message k topic_read payload_read typed m in cc)
  deliver-Dispatch info message k (raised x) topic_read payload_read typed e =
      quiet refl (λ m. let there = unique info message k topic_read payload_read typed m in cc)

  route-Dispatch :
      (info : TopicInfo) (message : Fields)
      → parse_owntracks_topic topic ≡ some info
      → parse_owntracks_message loads payload ≡ ok (some message)
      → Dispatch (route raises h message info topic origin (value_of message "_type"))
  route-Dispatch info message topic_read payload_read =
      elim (Kind-cases (value_of message "_type")) [
        | inl (k, typed) ↦
            let found =
              ap (route raises h message info topic origin) typed
              ∙ route-deliver raises h message info topic origin k in
            subst Dispatch (sym found)
              (deliver-Dispatch info message k _ topic_read payload_read typed refl)
        | inr other ↦
            subst Dispatch (sym (route-unknown raises h message info topic origin _ other)) (
              quiet refl (λ m.
                let same : message ≡ m.message = cc (payload_read, m.payload_read) in
                other m.k (ap (λ x. value_of x "_type") same ∙ m.typed)))
      ]

  routed-Dispatch :
      (info : TopicInfo) (t : Try (Option Fields))
      → parse_owntracks_topic topic ≡ some info
      → parse_owntracks_message loads payload ≡ t
      → Dispatch (routed raises h info topic origin t)
  unfolding my_tracks.Json.get
  routed-Dispatch info (raised e) topic_read read =
      quiet refl (λ m. let there = m.payload_read in cc)
  routed-Dispatch info (ok none) topic_read read =
      quiet refl (λ m. let there = m.payload_read in cc)
  routed-Dispatch info (ok (some Fields.end)) topic_read read = quiet refl (λ m.
      let same : Fields.end ≡ m.message = cc (read, m.payload_read) in
      let wrong : Json.null ≡ Json.text (type_name m.k) =
        ap (λ x. value_of x "_type") same ∙ m.typed in
      cc)
  routed-Dispatch info (ok (some (Fields.field k v rest))) topic_read read =
      route-Dispatch info (Fields.field k v rest) topic_read read

  -- A message calls every callback of its kind once, in the order of registration and whatever the
  -- callbacks raise, and no other callback; when nothing can be read from it, it calls none.
  pub handle_message-Dispatch : Dispatch (handle_message raises loads h topic payload origin)
  unfolding handle_message
  handle_message-Dispatch = received-Dispatch (parse_owntracks_topic topic) refl
    where
      received-Dispatch :
          (o : Option TopicInfo)
          → parse_owntracks_topic topic ≡ o
          → Dispatch (received raises loads h topic payload origin o)
      received-Dispatch none read = quiet refl (λ m. let there = m.topic_read in cc)
      received-Dispatch (some info) read = routed-Dispatch info _ read refl
