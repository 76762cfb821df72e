-- ===== src/Auth/Pattern.antt =====
-- OWNTRACKS_TOPIC_PATTERN of app/mqtt/auth.py, `^owntracks/([^/]+)/([^/]+)(/.*)?$`, as `re.match`
-- runs it: `.` stops at a newline, and `$` stands at the end or before a newline that ends the text.
-- The segments are runs without a slash, so that nothing is left for the engine to try again.
use Prim.Native.Char.{code}
use Prim.Native.String.{[], ◌∷◌, ◌++◌}
use mathlib.Core.Option
use my_tracks.Base.{
  String, Option, none, some, ◌==◌, compared_numbers, compared_texts, if◌then◌else◌,
}
use my_tracks.Base.Maybe.{◌>>=◌}
use my_tracks.Text.{span_slash}

-- groups 1, 2 and 3
pub record TopicMatch : Type 0 where
  pub user : String
  pub device : String
  pub subtopic : Option String

-- `.*` and then `$`: the text that `.*` takes
unfoldable pub dot_star_end : String → Option String
dot_star_end [] = some ""
dot_star_end (c ∷ s) =
    let rest = dot_star_end s in
    if code c == 10 then (if s == "" then some "" else none) else Option.map (λ t. c ∷ t) rest

-- `[^/]+` takes at least one character
abbrev pub nonempty : String → Option String
nonempty s = if s == "" then none else some s

-- `(/.*)?$`, given what follows the slash behind the device, if there is one
abbrev pub match_subtopic : Option String → Option (Option String)
match_subtopic none = some none
match_subtopic (some rest) = do t ← dot_star_end rest; some (some ("/" ++ t))

-- `([^/]+)(/.*)?$`
abbrev pub match_device : String → String × Option String → Option TopicMatch
match_device user (word, rest) = do
  device ← nonempty word
  subtopic ← match_subtopic rest
  some (record { user = user; device = device; subtopic = subtopic })

-- `([^/]+)/`, and the rest
abbrev pub match_user : String × Option String → Option TopicMatch
match_user (word, rest) = do
  user ← nonempty word
  after ← rest
  match_device user (span_slash after)

-- `owntracks/`, and the rest
abbrev pub match_root : String × Option String → Option TopicMatch
match_root (word, rest) = do
  after ← rest
  if word == "owntracks" then match_user (span_slash after) else none

unfoldable pub match_topic : String → Option TopicMatch
match_topic topic = match_root (span_slash topic)
