-- ===== src/Auth/Agrees.antt =====
-- The pattern of the access check and the parser of the message handlers read a topic alike.
use Prim.Native.Char.{Char, code}
use Prim.Native.String.{[], ◌∷◌, ◌++◌}
use mathlib.Core.Option
use mathlib.Core.Option.{some-injective}
use mathlib.Core.List.{List}
use text.Mathlib.TextEquality.{Char-path}
use text.Mathlib.TextLemmas.{nil-append, cons-append}
use my_tracks.Base.{
  String, Option, none, some, ◌==◌, compared_numbers, compared_texts, if◌then◌else◌, ◌≡◌, ◌≢◌, refl,
  subst, arith, sym, ap, ◌∙◌, Bool-cases, inl, inr, ◌⊎◌, eq_iff,
}
use my_tracks.Base.Maybe.{◌>>=◌, bind-eq-some}
use my_tracks.Text.{split_slash, span_slash}
use my_tracks.Text.Laws.{parts_of, split_slash-eq-parts_of}
use my_tracks.Topic.{parse_owntracks_topic, subtopic_of, topic_of_parts}
use my_tracks.Topic.Parsing.{subtopic_of-split_slash}
use my_tracks.Auth.Pattern.{
  TopicMatch, dot_star_end, nonempty, match_subtopic, match_device, match_user, match_root,
  match_topic,
}

-- What `.*` took is the whole text, or all but the newline at its end.
abbrev pub UpToNewline : String → String → Type 0
UpToNewline t s = (s ≡ t) ⊎ (s ≡ t ++ "\n")

UpToNewline-cons : (c : Char) (t s : String) → UpToNewline t s → UpToNewline (c ∷ t) (c ∷ s)
UpToNewline-cons c t s (inl e) = inl (ap (λ x. c ∷ x) e)
UpToNewline-cons c t s (inr e) = inr (ap (λ x. c ∷ x) e ∙ sym (cons-append c t "\n"))

newline_last : (s t : String) → (if s == "" then some "" else none) ≡ some t → (s ≡ "") × (t ≡ "")
newline_last s t e = ground (arith, eq_iff s "")

dot_star_end-UpToNewline : (s t : String) → dot_star_end s ≡ some t → UpToNewline t s
unfolding dot_star_end
dot_star_end-UpToNewline [] t e = inl (ground arith)
dot_star_end-UpToNewline (c ∷ s) t e = elim (Bool-cases (code c == 10)) [
  | inl newline ↦
      let (at_end, took) = newline_last s t (rw newline at e) in
      rw (at_end, took)
        (inr (ap (λ d. d ∷ "") (Char-path c _ (ground arith)) ∙ sym (nil-append "\n")))
  | inr other ↦
      let (u, took, same) = (Option.map-eq-some_iff _ _).0 (rw other at e) in
      rw (sym same) (UpToNewline-cons c u s (dot_star_end-UpToNewline s u took))
]

-- What the handlers' subtopic is, given the third group of the pattern.
abbrev pub SameSubtopic : Option String → Option String → Type 0
SameSubtopic none subtopic = subtopic ≡ none
SameSubtopic (some group) subtopic =
    (t : String) × (r : String) × (group ≡ "/" ++ t) × (subtopic ≡ some r) × UpToNewline t r

pub record Agrees (topic : String) (m : TopicMatch) : Type 0 where
  pub subtopic : Option String
  pub parsed :
      parse_owntracks_topic topic
      ≡ some (record { user = m.user; device = m.device; subtopic = subtopic })
  pub same : SameSubtopic m.subtopic subtopic
  pub user : m.user ≢ ""
  pub device : m.device ≢ ""

nonempty-eq-some : (s : String) {t : String} → nonempty s ≡ some t → (s ≡ t) × (t ≢ "")
nonempty-eq-some s e = ground (arith, eq_iff s "")

match_subtopic-SameSubtopic :
    (device : String) (rest group : Option String)
    → match_subtopic rest ≡ some group
    → (parts : List String) × (parts_of (device, rest) ≡ List.◌∷◌ device parts)
      × SameSubtopic group (subtopic_of parts)
match_subtopic-SameSubtopic device none group e =
    (List.[], refl, subst (λ g. SameSubtopic g none) (some-injective _ _ e) refl)
match_subtopic-SameSubtopic device (some rest) group e =
    let (t, took, same) = bind-eq-some (dot_star_end rest) (λ t. some (some ("/" ++ t))) e in
    (
      split_slash rest,
      refl,
      subst (λ g. SameSubtopic g (subtopic_of (split_slash rest))) (some-injective _ _ same)
          (t, rest, refl, subtopic_of-split_slash rest, dot_star_end-UpToNewline rest t took),
    )

-- The parts behind the root and the user.
record DeviceParts (user : String) (parts : List String) (m : TopicMatch) : Type 0 where
  rest : List String
  split : parts ≡ List.◌∷◌ m.device rest
  user_same : m.user ≡ user
  device : m.device ≢ ""
  same : SameSubtopic m.subtopic (subtopic_of rest)

abbrev as_match : String → String → Option String → TopicMatch
as_match user device group = record { user = user; device = device; subtopic = group }

match_device-DeviceParts :
    (user : String) (p : String × Option String) (m : TopicMatch)
    → match_device user p ≡ some m
    → DeviceParts user (parts_of p) m
match_device-DeviceParts user (word, rest) m e =
    let (device, is_device, e₁) =
      bind-eq-some (nonempty word)
        (λ device. match_subtopic rest >>= λ group. some (as_match user device group)) e in
    let (group, is_group, e₂) =
      bind-eq-some (match_subtopic rest) (λ group. some (as_match user device group)) e₁ in
    let same_m : m ≡ as_match user device group = sym (some-injective _ _ e₂) in
    let (same_word, is_nonempty) = nonempty-eq-some word is_device in
    let (parts, split, same) = match_subtopic-SameSubtopic word rest group is_group in
    rw same_m (record {
      rest = parts;
      split = split ∙ ap (λ w. List.◌∷◌ w parts) same_word;
      user_same = refl;
      device = is_nonempty;
      same = same;
    })

-- The parts behind the root.
record UserParts (parts : List String) (m : TopicMatch) : Type 0 where
  subtopic : Option String
  parsed :
      topic_of_parts (List.◌∷◌ "owntracks" parts)
      ≡ some (record { user = m.user; device = m.device; subtopic = subtopic })
  same : SameSubtopic m.subtopic subtopic
  user : m.user ≢ ""
  device : m.device ≢ ""

match_user-UserParts :
    (p : String × Option String) (m : TopicMatch) → match_user p ≡ some m → UserParts (parts_of p) m
match_user-UserParts (word, none) m e =
    let (user, is_user, e₁) = bind-eq-some (nonempty word) (λ user. none) e in cc e₁
match_user-UserParts (word, some after) m e =
    let (user, is_user, e₁) =
      bind-eq-some (nonempty word) (λ user. match_device user (span_slash after)) e in
    let (same_word, is_nonempty) = nonempty-eq-some word is_user in
    let d = match_device-DeviceParts user (span_slash after) m e₁ in
    record {
      subtopic = subtopic_of d.rest;
      parsed = rw (split_slash-eq-parts_of after, d.split, same_word) (rw (d.user_same));
      same = d.same;
      user = rw d.user_same is_nonempty;
      device = d.device;
    }

match_root-UserParts :
    (p : String × Option String) (m : TopicMatch)
    → match_root p ≡ some m
    → (parts : List String) × (parts_of p ≡ List.◌∷◌ "owntracks" parts) × UserParts parts m
match_root-UserParts (word, none) m e = cc
match_root-UserParts (word, some after) m e = (
  parts_of (span_slash after),
  rw (split_slash-eq-parts_of after) (ground (arith, eq_iff word "owntracks")),
  match_user-UserParts (span_slash after) m (ground arith),
)

-- A topic that the access check's pattern matches is one that the handlers accept: they read the
-- same user and the same device, neither of them empty, and the same subtopic, but for a newline at
-- the end of the topic.
pub match_topic-Agrees :
    (topic : String) (m : TopicMatch) → match_topic topic ≡ some m → Agrees topic m
unfolding match_topic parse_owntracks_topic
match_topic-Agrees topic m e =
    let (parts, split, u) = match_root-UserParts (span_slash topic) m e in
    record {
      subtopic = u.subtopic;
      parsed = rw (split_slash-eq-parts_of topic, split) u.parsed;
      same = u.same;
      user = u.user;
      device = u.device;
    }
