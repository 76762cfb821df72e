-- ===== src/Handlers/Kinds.antt =====
-- The kinds of OwnTracks messages, and what `handle_message` of app/mqtt/handlers.py does for each.
use my_tracks.Base.{
  ℕ, String, Option, none, some, List, [], ◌∷◌, ◌++◌, map, Bool, true, false, ◌==◌, compared_texts,
  if◌then◌else◌, ◌≡◌, ◌≢◌, ◌⊎◌, refl, sym, ap, ◌∙◌, eq_iff, inl, inr, Bool-cases,
}
use mathlib.Core.Option.{some-injective}
use my_tracks.Json.{Json, Fields}
use my_tracks.Numbers.{Try, ok}
use my_tracks.Topic.{TopicInfo}
use my_tracks.Extraction.{
  Data, is_text, extract_location_data, extract_lwt_data, extract_transition_data,
  extract_waypoint_data,
}
use my_tracks.Handlers.{
  Handler, Event, called, logged, Origin, location_extras, plain_extras, transition_extras,
  cmd_data, run_callbacks, deliver, handle_location, handle_lwt, handle_transition, handle_cmd,
  handle_waypoints, route,
}

pub data Kind : Type 0 where
  location lwt transition waypoints cmd : Kind

abbrev pub type_name : Kind → String
type_name location = "location"
type_name lwt = "lwt"
type_name transition = "transition"
type_name waypoints = "waypoints"
type_name cmd = "cmd"

abbrev pub callbacks_of : Kind → Handler → List ℕ
callbacks_of location h = h.location_callbacks
callbacks_of lwt h = h.lwt_callbacks
callbacks_of transition h = h.transition_callbacks
callbacks_of waypoints h = h.waypoint_callbacks
callbacks_of cmd h = h.cmd_callbacks

-- What the callbacks of a kind are given.
abbrev pub data_of : Kind → Fields → TopicInfo → String → Origin → Try (Option Data)
data_of location message info topic origin = extract_location_data message info
data_of lwt message info topic origin = extract_lwt_data message info
data_of transition message info topic origin = extract_transition_data message info
data_of waypoints message info topic origin = ok (extract_waypoint_data message info)
data_of cmd message info topic origin = ok (some (cmd_data message info topic origin info.user))

abbrev pub extras_of : Kind → Origin → String → Data → Data
extras_of location origin user d = location_extras origin user d
extras_of lwt origin user d = plain_extras origin user d
extras_of transition origin user d = transition_extras origin user d
extras_of waypoints origin user d = plain_extras origin user d
extras_of cmd origin user d = d

-- The calls among the events, in order.
abbrev pub calls : List Event → List (ℕ × Data)
calls [] = []
calls (called c d ∷ events) = (c, d) ∷ calls events
calls (logged c ∷ events) = calls events

kind_named : String → Option Kind
kind_named s =
    if s == "location"
    then some location
    else if s == "lwt"
    then some lwt
    else if s == "transition"
    then some transition
    else if s == "waypoints"
    then some waypoints
    else if s == "cmd"
    then some cmd
    else none

kind_named-type_name : (k : Kind) → kind_named (type_name k) ≡ some k
unfolding kind_named
kind_named-type_name location = refl
kind_named-type_name lwt = refl
kind_named-type_name transition = refl
kind_named-type_name waypoints = refl
kind_named-type_name cmd = refl

pub type_name_injective : (j k : Kind) → Json.text (type_name j) ≡ Json.text (type_name k) → j ≡ k
type_name_injective j k e =
    let same : type_name j ≡ type_name k = cc in
    some-injective _ _ (sym (kind_named-type_name j) ∙ ap kind_named same ∙ kind_named-type_name k)

pub is_text→eq : (v : Json) (s : String) → is_text v s ≡ true → v ≡ Json.text s
is_text→eq (Json.text t) s e = ap Json.text ((eq_iff t s).0 e)
is_text→eq Json.null s e = cc
is_text→eq (Json.boolean _) s e = cc
is_text→eq (Json.int _) s e = cc
is_text→eq (Json.float _) s e = cc
is_text→eq (Json.array _) s e = cc
is_text→eq (Json.object _) s e = cc

is_text-no_name :
    (v : Json) (k : Kind) → is_text v (type_name k) ≡ false → v ≢ Json.text (type_name k)
is_text-no_name v k e same = absurd (
    let found : is_text v (type_name k) ≡ true =
      ap (λ x. is_text x (type_name k)) same ∙ (eq_iff (type_name k) (type_name k)).1 refl in
    cc)

module _ (raises : ℕ → Data → Bool) where
  pub calls-run_callbacks :
      (cs : List ℕ) (d : Data) → calls (run_callbacks raises cs d) ≡ map (λ c. (c, d)) cs
  unfolding run_callbacks
  calls-run_callbacks [] d = refl
  calls-run_callbacks (c ∷ cs) d =
      elim (raises c d)
        as (λ b.
          calls (called c d ∷ ((if b then logged c ∷ [] else []) ++ run_callbacks raises cs d))
          ≡ (c, d) ∷ map (λ x. (x, d)) cs) [
            | true ↦ ap (λ l. (c, d) ∷ l) (calls-run_callbacks cs d)
            | false ↦ ap (λ l. (c, d) ∷ l) (calls-run_callbacks cs d)
          ]

  module _ (h : Handler) (message : Fields) (info : TopicInfo) (topic : String)
      (origin : Origin) where
    pub route-deliver :
        (k : Kind)
        → route raises h message info topic origin (Json.text (type_name k))
          ≡ deliver raises
              (callbacks_of k h)
              (extras_of k origin info.user)
              (data_of k message info topic origin)
    unfolding route handle_location handle_lwt handle_transition handle_cmd handle_waypoints
    route-deliver location = refl
    route-deliver lwt = refl
    route-deliver transition = refl
    route-deliver waypoints = refl
    route-deliver cmd = refl

    pub route-unknown :
        (v : Json)
        → ((k : Kind) → v ≢ Json.text (type_name k))
        → route raises h message info topic origin v ≡ ([], ok tt)
    unfolding route
    route-unknown v other =
        rw (unlike location)
          (rw (unlike lwt) (rw (unlike transition) (rw (unlike waypoints) (rw (unlike cmd)))))
      where
        unlike : (k : Kind) → is_text v (type_name k) ≡ false
        unlike k = elim (Bool-cases (is_text v (type_name k))) [
          | inl same ↦ absurd (other k (is_text→eq v (type_name k) same))
          | inr e ↦ e
        ]

pub Kind-cases :
    (v : Json)
    → ((k : Kind) × (v ≡ Json.text (type_name k))) ⊎ ((k : Kind) → v ≢ Json.text (type_name k))
Kind-cases v = elim (Bool-cases (is_text v "location")) [
  | inl e ↦ inl (location, is_text→eq v _ e)
  | inr a ↦ elim (Bool-cases (is_text v "lwt")) [
    | inl e ↦ inl (lwt, is_text→eq v _ e)
    | inr b ↦ elim (Bool-cases (is_text v "transition")) [
      | inl e ↦ inl (transition, is_text→eq v _ e)
      | inr c ↦ elim (Bool-cases (is_text v "waypoints")) [
        | inl e ↦ inl (waypoints, is_text→eq v _ e)
        | inr d ↦ elim (Bool-cases (is_text v "cmd")) [
          | inl e ↦ inl (cmd, is_text→eq v _ e)
          | inr f ↦ inr (λ k. is_text-no_name v k (each a b c d f k))
        ]
      ]
    ]
  ]
]
  where
    each :
        is_text v "location" ≡ false
        → is_text v "lwt" ≡ false
        → is_text v "transition" ≡ false
        → is_text v "waypoints" ≡ false
        → is_text v "cmd" ≡ false
        → (k : Kind) → is_text v (type_name k) ≡ false
    each a b c d e location = a
    each a b c d e lwt = b
    each a b c d e transition = c
    each a b c d e waypoints = d
    each a b c d e cmd = e
