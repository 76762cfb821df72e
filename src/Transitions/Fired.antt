-- ===== src/Transitions/Fired.antt =====
-- For which rules a transition attempts a mail: app/mqtt/plugin.py (_fire_transition_actions).
use my_tracks.Base.{
  ℕ, String, Option, none, some, List, [], ◌∷◌, Bool, true, false, not, ◌&&◌, ◌==◌, compared_texts,
  compared_numbers, if◌then◌else◌, ◌≡◌, refl, eq_iff, Bool-cases, inl, inr, ◌⊎◌, ◌↔◌, sym, ap, ◌∙◌,
}
use mathlib.Core.Option.{some-injective}
use my_tracks.Json.{Json}
use my_tracks.Handlers.Kinds.{is_text→eq}
use my_tracks.Extraction.{is_text}
use my_tracks.Devices.{Transition, TransitionAction}
use my_tracks.Transitions.{other_waypoint, other_event, fire}

-- An active rule of the owner, for any geofence or for the transition's, and for any event or for its own.
pub record IsMet (owner : ℕ) (transition : Transition) (action : TransitionAction) : Type 0 where
  pub user : action.user ≡ owner
  pub active : action.is_active ≡ true
  pub waypoint : (action.waypoint ≡ none) ⊎ (action.waypoint ≡ transition.waypoint)
  pub event : (action.event ≡ "any") ⊎ (transition.event ≡ Json.text action.event)

pub data Fired (owner : ℕ) (transition : Transition) : List TransitionAction → List ℕ → Type 0 where
  nil : Fired owner transition [] []
  attempted :
      (action : TransitionAction) {actions : List TransitionAction} {mails : List ℕ}
      → IsMet owner transition action
      → Fired owner transition actions mails
      → Fired owner transition (action ∷ actions) (action.pk ∷ mails)
  passed_over :
      (action : TransitionAction) {actions : List TransitionAction} {mails : List ℕ}
      → ¬ IsMet owner transition action
      → Fired owner transition actions mails
      → Fired owner transition (action ∷ actions) mails

other_waypoint_iff : (o t : Option String) → (other_waypoint o t ≡ false) ↔ ((o ≡ none) ⊎ (o ≡ t))
other_waypoint_iff none t = (λ _. inl refl, λ _. refl)
other_waypoint_iff (some rid) none = (λ e. cc, λ h. absurd (neither h))
  where
    neither : (some rid ≡ none) ⊎ (some rid ≡ none) → ⊥
    neither (inl e) = cc
    neither (inr e) = cc
other_waypoint_iff (some rid) (some other) = (λ e. inr (ap some (sym (same e))), back)
  where
    same : not (other == rid) ≡ false → other ≡ rid
    same e = elim (Bool-cases (other == rid)) [
      | inl found ↦ (eq_iff other rid).0 found
      | inr differs ↦ absurd (let wrong : true ≡ false = rw differs at e in cc)
    ]

    back : (some rid ≡ none) ⊎ (some rid ≡ some other) → not (other == rid) ≡ false
    back (inl e) = absurd (let wrong = e in cc)
    back (inr e) = rw ((eq_iff other rid).1 (sym (some-injective _ _ e))) refl

is_text_iff : (v : Json) (s : String) → (is_text v s ≡ true) ↔ (v ≡ Json.text s)
is_text_iff v s = (is_text→eq v s, λ e. ap (λ x. is_text x s) e ∙ (eq_iff s s).1 refl)

other_event_iff :
    (wanted : String) (event : Json)
    → (other_event wanted event ≡ false) ↔ ((wanted ≡ "any") ⊎ (event ≡ Json.text wanted))
other_event_iff wanted event = (forward (wanted == "any") (is_text event wanted) refl refl, back)
  where
    forward :
        (b c : Bool)
        → (wanted == "any") ≡ b
        → is_text event wanted ≡ c
        → not b && not c ≡ false
        → (wanted ≡ "any") ⊎ (event ≡ Json.text wanted)
    forward true c eb ec e = inl ((eq_iff wanted "any").0 eb)
    forward false true eb ec e = inr ((is_text_iff event wanted).0 ec)
    forward false false eb ec e = cc

    never : (b : Bool) → b && false ≡ false
    never true = refl
    never false = refl

    back : (wanted ≡ "any") ⊎ (event ≡ Json.text wanted) → other_event wanted event ≡ false
    back (inl e) = rw ((eq_iff wanted "any").1 e) refl
    back (inr e) = rw ((is_text_iff event wanted).1 e) (never (not (wanted == "any")))

module _ (owner : ℕ) (transition : Transition) where
  -- The rule's user, activity, geofence and event by the tests of the code.
  met_iff :
      (action : TransitionAction) (a b c d : Bool)
      → (action.user == owner) ≡ a
      → action.is_active ≡ b
      → other_waypoint action.waypoint transition.waypoint ≡ c
      → other_event action.event transition.event ≡ d
      → {actions : List TransitionAction} {mails : List ℕ} → Fired owner transition actions mails
      → Fired owner transition
          (action ∷ actions)
          (if a && b then if c then mails else if d then mails else action.pk ∷ mails else mails)
  met_iff action false b c d ea eb ec ed rest =
      passed_over action
        (λ met.
          let wrong = sym ea ∙ (compared_numbers.agree_iff action.user owner).1 met.user in cc)
        rest
  met_iff action true false c d ea eb ec ed rest =
      passed_over action (λ met. let wrong = sym eb ∙ met.active in cc) rest
  met_iff action true true true d ea eb ec ed rest =
      passed_over action
        (λ met.
          let wrong =
            sym ec ∙ (other_waypoint_iff action.waypoint transition.waypoint).1 met.waypoint in
          cc)
        rest
  met_iff action true true false true ea eb ec ed rest =
      passed_over action
        (λ met.
          let wrong = sym ed ∙ (other_event_iff action.event transition.event).1 met.event in cc)
        rest
  met_iff action true true false false ea eb ec ed rest =
      attempted action
        (record {
          user = (compared_numbers.agree_iff action.user owner).0 ea;
          active = eb;
          waypoint = (other_waypoint_iff action.waypoint transition.waypoint).0 ec;
          event = (other_event_iff action.event transition.event).0 ed;
        })
        rest

  -- A transition attempts to send one mail, in the order of the rules, for each active rule of the
  -- device's owner that is for any geofence or for the transition's, and for any event or for the
  -- transition's; and none for another rule. Whether an attempt sends a mail is not stated.
  pub fire-Fired :
      (actions : List TransitionAction)
      → Fired owner transition actions (fire owner transition actions)
  unfolding fire
  fire-Fired [] = nil
  fire-Fired (action ∷ actions) = met_iff action _ _ _ _ refl refl refl refl (fire-Fired actions)
