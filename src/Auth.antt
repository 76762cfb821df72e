-- ===== src/Auth.antt =====
-- Who may connect and who may use a topic: app/mqtt/auth.py.
pub mod Pattern
pub mod Agrees
pub mod Access
pub mod Session
use my_tracks.Base.{
  String, Option, none, some, List, [], ◌∷◌, Bool, true, false, not, ◌&&◌, ◌==◌, compared_texts,
  if◌then◌else◌,
}
use text.Mathlib.Text.{starts_with}
use Pattern.{TopicMatch, match_topic}

-- The fields of Django's user that this code reads.
pub record User : Type 0 where
  pub username : String
  pub is_active : Bool
  pub is_superuser : Bool

-- User.objects.get(username=username); `none` is User.DoesNotExist. User names are unique.
unfoldable pub get_django_user : List User → String → Option User
get_django_user [] username = none
get_django_user (user ∷ users) username =
    if user.username == username then some user else get_django_user users username

-- Python's truth of a text that may be None.
abbrev pub is_set : Option String → Bool
is_set none = false
is_set (some s) = not (s == "")

-- `mqtt_username != cert_cn`
abbrev pub differs : Option String → String → Bool
differs none cn = true
differs (some s) cn = not (s == cn)

-- Django's password check is not code of this repository.
unfoldable pub authenticate_user : (User → String → Bool) → List User → String → String → Bool
authenticate_user check_password users username password = elim (get_django_user users username) [
  | none ↦ false
  | some user ↦
      if not user.is_active
      then false
      else if not (check_password user password)
      then false
      else true
]

unfoldable pub authenticate_by_cert : List User → String → Option String → Bool
authenticate_by_cert users cert_cn mqtt_username =
    if is_set mqtt_username && differs mqtt_username cert_cn
    then false
    else elim (get_django_user users cert_cn) [
      | none ↦ false
      | some user ↦ if not user.is_active then false else true
    ]

pub data Action : Type 0 where
  publish subscribe : Action

abbrev pub is_subscribe : Action → Bool
is_subscribe publish = false
is_subscribe subscribe = true

abbrev pub is_super : Option User → Bool
is_super none = false
is_super (some user) = user.is_superuser

-- `match.group(3) or ""`
abbrev pub subtopic_text : Option String → String
subtopic_text none = ""
subtopic_text (some s) = s

-- the rules for a topic that the pattern matches
unfoldable pub owntracks_access : List User → String → TopicMatch → Action → Bool
owntracks_access users username m action =
    if m.user == username
    then true
    else if not (is_subscribe action) && subtopic_text m.subtopic == "/cmd"
    then true
    else if is_super (get_django_user users username)
    then true
    else false

unfoldable pub check_topic_access : List User → String → String → Action → Bool
unfolding owntracks_access
check_topic_access users username topic action =
    if starts_with topic "$SYS/"
    then (if is_subscribe action then true else false)
    else elim (match_topic topic) [
      | none ↦ false
      | some m ↦ owntracks_access users username m action
    ]
