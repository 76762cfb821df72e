-- ===== src/Topic/Parsing.antt =====
-- What the topic parsers accept, and that they undo the functions that print topics.
use Prim.Native.String.{◌++◌}
use text.Mathlib.TextLemmas.{append_assoc, append-nil}
use my_tracks.Base.{
  String, Option, none, some, List, [], ◌∷◌, compared_texts, eq_iff, ◌≡◌, refl, arith, ap, sym, ◌∙◌,
  All, ◌↔◌, ◌≢◌,
}
use my_tracks.Text.{split_slash, join_slash, span_slash, IsLevel}
use my_tracks.Text.Laws.{
  glue, IsLevel-split_slash, split_slash-ne-nil, IsLevel-span_slash, join_slash-split_slash,
  glue-span_slash, split_slash-append, split_slash_self, span_slash-append,
}
use my_tracks.Topic.{
  TopicInfo, parse_owntracks_topic, get_command_topic, parse_device_id, topic_of_parts, subtopic_of,
  device_id_of,
}

-- The topic that a `TopicInfo` stands for.
abbrev pub tail_text : Option String → String
tail_text none = ""
tail_text (some rest) = "/" ++ rest

abbrev pub topic_text : TopicInfo → String
topic_text info =
    "owntracks" ++ ("/" ++ (info.user ++ ("/" ++ (info.device ++ tail_text info.subtopic))))

pub record IsTopicOf (topic : String) (info : TopicInfo) : Type 0 where
  pub text : topic ≡ topic_text info
  pub user : IsLevel info.user
  pub device : IsLevel info.device

root_of_some :
    (root user device : String) (rest : List String) (info : TopicInfo)
    → topic_of_parts (root ∷ user ∷ device ∷ rest) ≡ some info
    → (root ≡ "owntracks")
      × (info ≡ record { user = user; device = device; subtopic = subtopic_of rest })
root_of_some root user device rest info e = ground (arith, eq_iff root "owntracks")

-- The text of the parts after the device.
tail_text-subtopic_of :
    (device : String) (rest : List String)
    → join_slash (device ∷ rest) ≡ device ++ tail_text (subtopic_of rest)
unfolding join_slash
tail_text-subtopic_of device [] = sym (append-nil device)
tail_text-subtopic_of device (p ∷ ps) = refl

topic_of_parts-IsTopicOf :
    (parts : List String) (info : TopicInfo)
    → All IsLevel parts
    → topic_of_parts parts ≡ some info
    → IsTopicOf (join_slash parts) info
unfolding join_slash
topic_of_parts-IsTopicOf (root ∷ user ∷ device ∷ rest) info h e =
    let (is_root, same) = root_of_some root user device rest info e in
    rw (is_root, same)
      (record {
        text = rw (tail_text-subtopic_of device rest) refl;
        user = h.1.0;
        device = h.1.1.0;
      })
topic_of_parts-IsTopicOf (root ∷ user ∷ []) info h e = cc
topic_of_parts-IsTopicOf (root ∷ []) info h e = cc
topic_of_parts-IsTopicOf [] info h e = cc

parse_owntracks_topic-IsTopicOf :
    (topic : String) (info : TopicInfo)
    → parse_owntracks_topic topic ≡ some info
    → IsTopicOf topic info
unfolding parse_owntracks_topic
parse_owntracks_topic-IsTopicOf topic info e =
    rw join_slash-split_slash at
      (topic_of_parts-IsTopicOf (split_slash topic) info (IsLevel-split_slash topic) e)

subtopic_of_ne_nil : (ws : List String) → ws ≢ [] → subtopic_of ws ≡ some (join_slash ws)
subtopic_of_ne_nil [] h = absurd (h refl)
subtopic_of_ne_nil (w ∷ ws) h = refl

pub subtopic_of-split_slash : (s : String) → subtopic_of (split_slash s) ≡ some s
subtopic_of-split_slash s =
    subtopic_of_ne_nil (split_slash s) (split_slash-ne-nil s) ∙ ap some (join_slash-split_slash s)

split_slash-tail_text :
    (device : String) (subtopic : Option String)
    → IsLevel device
    → (rest : List String) × (split_slash (device ++ tail_text subtopic) ≡ device ∷ rest)
      × (subtopic_of rest ≡ subtopic)
split_slash-tail_text device none h = ([], rw append-nil (split_slash_self device h), refl)
split_slash-tail_text device (some s) h =
    (split_slash s, split_slash-append device s h, subtopic_of-split_slash s)

root-IsLevel : IsLevel "owntracks"
root-IsLevel = omega arith

parse_owntracks_topic-topic_text :
    (info : TopicInfo)
    → IsLevel info.user
    → IsLevel info.device
    → parse_owntracks_topic (topic_text info) ≡ some info
unfolding parse_owntracks_topic
parse_owntracks_topic-topic_text info hu hd =
    let (rest, split, same) = split_slash-tail_text info.device info.subtopic hd in
    rw (split_slash-append "owntracks" _ root-IsLevel, split_slash-append info.user _ hu, split)
      (cc same)

-- A topic parses to `info` exactly when it is `owntracks/{user}/{device}`, with `/{subtopic}` behind
-- it where `info` has one, and neither the user nor the device has a slash in it.
pub parse_owntracks_topic-eq-some_iff :
    (topic : String) (info : TopicInfo)
    → (parse_owntracks_topic topic ≡ some info) ↔ IsTopicOf topic info
parse_owntracks_topic-eq-some_iff topic info = (
  parse_owntracks_topic-IsTopicOf topic info,
  λ t. rw (t.text) (parse_owntracks_topic-topic_text info t.user t.device),
)

get_command_topic-eq-topic_text :
    (user device : String)
    → get_command_topic user device
      ≡ topic_text (record { user = user; device = device; subtopic = some "cmd" })
unfolding get_command_topic
get_command_topic-eq-topic_text user device = append_assoc "owntracks" "/" _

-- The topic on which a device id's commands are published parses back to that user and device with
-- the subtopic `cmd`: printing a device id, splitting it and printing its command topic lose nothing,
-- for a user and a device without slashes.
pub parse_owntracks_topic-get_command_topic :
    (user device : String)
    → IsLevel user
    → IsLevel device
    → (parse_device_id (user ++ ("/" ++ device)) ≡ some (user, device))
      × (parse_owntracks_topic (get_command_topic user device)
          ≡ some (record { user = user; device = device; subtopic = some "cmd" }))
unfolding parse_device_id
parse_owntracks_topic-get_command_topic user device hu hd = (
  ap device_id_of (span_slash-append user device hu),
  rw (get_command_topic-eq-topic_text user device) (parse_owntracks_topic-topic_text _ hu hd),
)

device_id_of-eq-some :
    (p : String × Option String) (user device : String)
    → device_id_of p ≡ some (user, device)
    → p ≡ (user, some device)
device_id_of-eq-some (w, none) user device e = cc
device_id_of-eq-some (w, some r) user device e = ground arith

-- A device id parses to `(user, device)` exactly when it is `user/device` and `user` has no slash.
pub parse_device_id_cut :
    (device_id user device : String)
    → (parse_device_id device_id ≡ some (user, device))
      ↔ ((device_id ≡ user ++ ("/" ++ device)) × IsLevel user)
unfolding parse_device_id
parse_device_id_cut device_id user device = (
  λ e.
      let cut = device_id_of-eq-some (span_slash device_id) user device e in
      (
        rw (sym (glue-span_slash device_id)) (ap glue cut),
        rw (ap (λ p. p.0) cut) at (IsLevel-span_slash device_id),
      ),
  λ (same, plain). rw same (ap device_id_of (span_slash-append user device plain)),
)
