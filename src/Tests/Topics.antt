-- ===== src/Tests/Topics.antt =====
-- Topics and device ids, on the examples of the repository's own tests.
use my_tracks.Base.{none, some, ◌≡◌, refl, ◌↔◌, arith}
use my_tracks.Text.{split_slash, join_slash, span_slash}
use my_tracks.Topic.{TopicInfo, parse_owntracks_topic, get_command_topic, parse_device_id}
use my_tracks.Topic.Parsing.{
  IsTopicOf, parse_owntracks_topic-eq-some_iff, parse_owntracks_topic-get_command_topic,
}

abbrev phone_event : TopicInfo
phone_event = record { user = "alice"; device = "phone"; subtopic = some "event/1" }

parse_owntracks_topic_tests :
    (parse_owntracks_topic "owntracks/alice/phone/event/1" ≡ some phone_event)
    × (parse_owntracks_topic "owntracks/alice" ≡ none)
    × (parse_owntracks_topic "other/alice/phone" ≡ none)
    × (parse_owntracks_topic "owntracks/alice/"
        ≡ some (record { user = "alice"; device = ""; subtopic = none }))
unfolding parse_owntracks_topic split_slash join_slash
parse_owntracks_topic_tests = (refl, refl, refl, refl)

parse_device_id_tests :
    (parse_device_id "alice/phone/2" ≡ some ("alice", "phone/2")) × (parse_device_id "alice" ≡ none)
unfolding parse_device_id span_slash
parse_device_id_tests = (refl, refl)

parse_owntracks_topic-eq-some_iff_example :
    (parse_owntracks_topic "owntracks/alice/phone/event/1" ≡ some phone_event)
    ↔ IsTopicOf "owntracks/alice/phone/event/1" phone_event
parse_owntracks_topic-eq-some_iff_example =
    parse_owntracks_topic-eq-some_iff "owntracks/alice/phone/event/1" phone_event

parse_owntracks_topic-get_command_topic_example :
    (parse_device_id "alice/phone" ≡ some ("alice", "phone"))
    × (parse_owntracks_topic (get_command_topic "alice" "phone")
        ≡ some (record { user = "alice"; device = "phone"; subtopic = some "cmd" }))
parse_owntracks_topic-get_command_topic_example =
    parse_owntracks_topic-get_command_topic "alice" "phone" (omega arith) (omega arith)
