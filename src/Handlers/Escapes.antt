-- ===== src/Handlers/Escapes.antt =====
-- The exceptions that leave `handle_message` of app/mqtt/handlers.py.
use Prim.Native.Nat.{◌^◌}
use my_tracks.Base.{ℕ, ◌≤◌, String, Option, some, List, [], Bool, false, ◌≡◌, ap, ◌∙◌}
use my_tracks.Base.Int.{pos}
use my_tracks.Json.{Json, Fields, get}
use my_tracks.Numbers.{overflow_error, ok, raised, int}
use my_tracks.Numbers.Range.{fromtimestamp-overflow}
use my_tracks.Topic.{TopicInfo, parse_owntracks_topic}
use my_tracks.Extraction.{Data, value_of, is_null, extract_location_data}
use my_tracks.Handlers.{
  Loaded, parse_owntracks_message, Handler, Origin, deliver, location_extras, route, routed,
  handle_message,
}
use my_tracks.Handlers.Kinds.{location, route-deliver}

extract_location_data-overflow :
    (message : Fields) (info : TopicInfo) (n : ℕ)
    → value_of message "_type" ≡ Json.text "location"
    → is_null (value_of message "lat") ≡ false
    → is_null (value_of message "lon") ≡ false
    → value_of message "tst" ≡ Json.int (pos n)
    → 2 ^ 63 ≤ n
    → extract_location_data message info ≡ raised overflow_error
unfolding extract_location_data int
extract_location_data-overflow message info n typed lat lon tst large =
    rw typed (rw tst (rw lat (rw lon (rw (fromtimestamp-overflow n large)))))

module _ (raises : ℕ → Data → Bool) (loads : List ℕ → Loaded) (h : Handler) (topic : String)
    (payload : Option (List ℕ)) (origin : Origin) where
  routed-message :
      (info : TopicInfo) (message : Fields)
      → value_of message "_type" ≡ Json.text "location"
      → routed raises h info topic origin (ok (some message))
        ≡ route raises h message info topic origin (Json.text "location")
  unfolding my_tracks.Json.get
  routed-message info Fields.end typed = cc
  routed-message info (Fields.field k v rest) typed =
      ap (route raises h (Fields.field k v rest) info topic origin) typed

  -- A location message whose `tst` is an integer of 64 bits or more is not dropped like other bad
  -- timestamps: an OverflowError leaves `handle_message`, before any callback is called.
  pub handle_message-overflow :
      (info : TopicInfo) (message : Fields) (n : ℕ)
      → parse_owntracks_topic topic ≡ some info
      → parse_owntracks_message loads payload ≡ ok (some message)
      → value_of message "_type" ≡ Json.text "location"
      → is_null (value_of message "lat") ≡ false
      → is_null (value_of message "lon") ≡ false
      → value_of message "tst" ≡ Json.int (pos n)
      → 2 ^ 63 ≤ n
      → handle_message raises loads h topic payload origin ≡ ([], raised overflow_error)
  unfolding handle_message
  handle_message-overflow info message n topic_read payload_read typed lat lon tst large =
      rw topic_read (
        rw payload_read (
          routed-message info message typed
          ∙ route-deliver raises h message info topic origin location
          ∙ ap (deliver raises h.location_callbacks (location_extras origin info.user))
              (extract_location_data-overflow message info n typed lat lon tst large)))
