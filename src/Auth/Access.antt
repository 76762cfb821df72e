-- ===== src/Auth/Access.antt =====
-- Which topics a user may use, in the terms of the message handlers' topics.
use Prim.Native.Char.{Char, code}
use Prim.Native.String.{[], ◌∷◌, ◌++◌}
use text.Mathlib.Text.{starts_with}
use text.Mathlib.TextEquality.{starts_with_iff}
use text.Mathlib.TextLemmas.{cons-append, append-nil, append_cancel_left}
use my_tracks.Base.{
  ℕ, String, Option, none, some, List, Bool, true, false, not, ◌==◌, compared_numbers,
  compared_texts, ◌≡◌, ◌≢◌, refl, arith, sym, ap, ◌∙◌, Bool-cases, Option-cases, inl, inr, eq_iff,
  ◌&&◌, ◌||◌,
}
use my_tracks.Text.{IsLevel, span_slash}
use my_tracks.Text.Laws.{span_slash-append, span_slash_self}
use my_tracks.Topic.{TopicInfo, parse_owntracks_topic}
use my_tracks.Topic.Parsing.{topic_text, tail_text}
use my_tracks.Auth.{
  User, get_django_user, Action, publish, subscribe, is_subscribe, is_super, subtopic_text,
  owntracks_access, check_topic_access,
}
use my_tracks.Auth.Pattern.{TopicMatch, dot_star_end, nonempty, match_device, match_topic}
use my_tracks.Auth.Agrees.{UpToNewline, SameSubtopic, Agrees, match_topic-Agrees}

-- The reasons for which access is granted.
pub data Grant (users : List User) (username topic : String) (action : Action) : Type 0 where
  sys : starts_with topic "$SYS/" ≡ true → action ≡ subscribe → Grant users username topic action
  own :
      (info : TopicInfo)
      → parse_owntracks_topic topic ≡ some info
      → info.user ≡ username
      → Grant users username topic action
  command :
      (info : TopicInfo) (subtopic : String)
      → parse_owntracks_topic topic ≡ some info
      → action ≡ publish
      → info.subtopic ≡ some subtopic
      → UpToNewline "cmd" subtopic
      → Grant users username topic action
  super :
      (info : TopicInfo) (user : User)
      → parse_owntracks_topic topic ≡ some info
      → get_django_user users username ≡ some user
      → user.is_superuser ≡ true
      → Grant users username topic action

is_super-eq-true :
    (o : Option User) → is_super o ≡ true → (u : User) × (o ≡ some u) × (u.is_superuser ≡ true)
is_super-eq-true none e = cc
is_super-eq-true (some u) e = (u, refl, e)

-- The third group is "/cmd" only for the subtopic "cmd".
cmd_group :
    (group subtopic : Option String)
    → SameSubtopic group subtopic
    → subtopic_text group ≡ "/cmd"
    → (r : String) × (subtopic ≡ some r) × UpToNewline "cmd" r
cmd_group none subtopic s e = absurd (ground (arith, eq_iff "" "/cmd"))
cmd_group (some group) subtopic (t, r, same_group, same, upto) e =
    (r, same, rw (append_cancel_left "/" t "cmd" (sym same_group ∙ e)) at upto)

module _ (users : List User) (username topic : String) (action : Action) where
  owntracks_access-Grant :
      (m : TopicMatch)
      → Agrees topic m
      → owntracks_access users username m action ≡ true
      → Grant users username topic action
  unfolding owntracks_access
  owntracks_access-Grant m a e = elim (Bool-cases (m.user == username)) [
    | inl mine ↦ Grant.own _ a.parsed ((eq_iff _ _).0 mine)
    | inr other ↦
        elim (Bool-cases (not (is_subscribe action) && subtopic_text m.subtopic == "/cmd")) [
          | inl cmd ↦
              let (r, same, upto) =
                cmd_group m.subtopic a.subtopic a.same
                  (ground (arith, eq_iff (subtopic_text m.subtopic) "/cmd")) in
              Grant.command _ r a.parsed (ground arith) same upto
          | inr no_cmd ↦
              let (u, found, sup) =
                is_super-eq-true (get_django_user users username) (ground arith) in
              Grant.super _ u a.parsed found sup
        ]
  ]

-- Access is granted for these reasons only: a subscription to a `$SYS/` topic; a topic that the
-- handlers read as the user's own; a publication to a topic that they read as a `cmd` subtopic, with
-- or without a newline behind it; a topic that they accept, and a superuser.
pub check_topic_access-Grant :
    (users : List User) (username topic : String) (action : Action)
    → check_topic_access users username topic action ≡ true
    → Grant users username topic action
unfolding check_topic_access
check_topic_access-Grant users username topic action e =
    elim (Bool-cases (starts_with topic "$SYS/")) [
      | inl sys_topic ↦ Grant.sys sys_topic (ground arith)
      | inr other ↦ elim (Option-cases (match_topic topic)) [
        | inl missed ↦ absurd (ground arith)
        | inr (m, matched) ↦
            owntracks_access-Grant users username topic action m
              (match_topic-Agrees topic m matched) (ground arith)
      ]
    ]

-- The text has no newline.
abbrev pub NoNewline : String → Type 0
NoNewline [] = Unit
NoNewline (c ∷ s) = (code c ≢ 10) × NoNewline s

dot_star_end_all : (s : String) → NoNewline s → dot_star_end s ≡ some s
unfolding dot_star_end
dot_star_end_all [] h = refl
dot_star_end_all (c ∷ s) h = ground (arith, dot_star_end_all s)

abbrev pub SubtopicNoNewline : Option String → Type 0
SubtopicNoNewline none = Unit
SubtopicNoNewline (some s) = NoNewline s

-- A topic of the documented form, `owntracks/{user}/{device}[/{subtopic}]`.
pub record IsWellFormed (info : TopicInfo) : Type 0 where
  pub user : IsLevel info.user
  pub device : IsLevel info.device
  pub user_nonempty : info.user ≢ ""
  pub device_nonempty : info.device ≢ ""
  pub subtopic : SubtopicNoNewline info.subtopic

abbrev group_of : Option String → Option String
group_of none = none
group_of (some s) = some ("/" ++ s)

nonempty-some : (s : String) → s ≢ "" → nonempty s ≡ some s
nonempty-some s h = ground (arith, eq_iff s "")

match_device-tail :
    (user device : String) (subtopic : Option String)
    → IsLevel device
    → device ≢ ""
    → SubtopicNoNewline subtopic
    → match_device user (span_slash (device ++ tail_text subtopic))
      ≡ some (record { user = user; device = device; subtopic = group_of subtopic })
match_device-tail user device none h k n =
    rw (append-nil, span_slash_self device h, nonempty-some device k) refl
match_device-tail user device (some s) h k n =
    rw (span_slash-append device s h, nonempty-some device k, dot_star_end_all s n) refl

match_topic-topic_text :
    (info : TopicInfo)
    → IsWellFormed info
    → match_topic (topic_text info)
      ≡ some (record { user = info.user; device = info.device; subtopic = group_of info.subtopic })
unfolding match_topic
match_topic-topic_text info w =
    rw
      (
        span_slash-append "owntracks"
            (info.user ++ ("/" ++ (info.device ++ tail_text info.subtopic))) (omega arith),
        span_slash-append info.user (info.device ++ tail_text info.subtopic) w.user,
        nonempty-some info.user w.user_nonempty,
      )
      (match_device-tail info.user info.device info.subtopic w.device w.device_nonempty w.subtopic)

abbrev head_code : String → ℕ
head_code [] = 0
head_code (c ∷ s) = code c

head_code-append : (c : Char) (s t : String) → head_code ((c ∷ s) ++ t) ≡ code c
head_code-append c s t = ap head_code (cons-append c s t)

not_sys : (info : TopicInfo) → starts_with (topic_text info) "$SYS/" ≡ false
not_sys info = elim (Bool-cases (starts_with (topic_text info) "$SYS/")) [
  | inr no_sys ↦ no_sys
  | inl sys_topic ↦
      let (t, same) = (starts_with_iff (topic_text info) "$SYS/").0 sys_topic in
      let heads =
        sym (head_code-append "$" "SYS/" t)
        ∙ ap head_code same
        ∙ head_code-append "o" "wntracks"
            ("/" ++ (info.user ++ ("/" ++ (info.device ++ tail_text info.subtopic)))) in
      absurd (omega (arith, heads))
]

abbrev pub is_cmd : Option String → Bool
is_cmd none = false
is_cmd (some s) = s == "cmd"

cmd_group_iff :
    (subtopic : Option String) → (subtopic_text (group_of subtopic) == "/cmd") ≡ is_cmd subtopic
cmd_group_iff none = refl
cmd_group_iff (some s) = ground (
  arith,
  eq_iff ("/" ++ s) "/cmd",
  eq_iff s "cmd",
  append_cancel_left "/" s "cmd",
  λ (e : s ≡ "cmd"). ap (λ t. "/" ++ t) e,
)

-- On a topic of the documented form the answer is: the user's own topic, or a publication to a `cmd`
-- subtopic, or a superuser.
pub check_topic_access_decides :
    (users : List User) (username : String) (info : TopicInfo) (action : Action)
    → IsWellFormed info
    → check_topic_access users username (topic_text info) action ≡ (
        info.user == username
        || not (is_subscribe action) && is_cmd info.subtopic
        || is_super (get_django_user users username))
unfolding check_topic_access
check_topic_access_decides users username info action w =
    rw (not_sys info, match_topic-topic_text info w, cmd_group_iff info.subtopic) (ground arith)
