-- ===== src/Extraction/Located.antt =====
-- What `extract_location_data` returns: app/mqtt/handlers.py.
use my_tracks.Base.{
  String, Option, none, some, [], ◌∷◌, All, Bool, true, false, ◌==◌, compared_texts, if◌then◌else◌,
  ◌≡◌, refl, sym, ap, ◌∙◌, inl, inr, Bool-cases, if-cases, eq_iff, subst,
}
use my_tracks.Base.Int.{ℤ}
use my_tracks.Base.Table.{get as entry, get-put}
use my_tracks.Json.{Json, Fields, get}
use my_tracks.Numbers.{PyError, Try, ok, raised, ◌>>=◌, int, float, fromtimestamp}
use my_tracks.Numbers.Range.{IsInstant}
use my_tracks.Topic.{TopicInfo}
use my_tracks.Extraction.{
  json, word, moment, number, Data, value_of, caught, copy_field, tracker, update, location_fields,
  dated, located, extract_location_optional_fields, extract_location_data,
}
use my_tracks.Extraction.Columns.{
  column, IsColumnValue, caught-IsInstant, extract_location_optional_fields-IsColumnValue,
}

entry-copy_field :
    (o : Option Json) (name other : String) (fields : Data)
    → (name == other) ≡ false
    → entry (copy_field o name fields) other ≡ entry fields other
entry-copy_field none name other fields differs = refl
entry-copy_field (some v) name other fields differs =
    rw (get-put fields name other (json v)) (rw differs)

-- A name that is no column of an optional field keeps its entry.
entry-update :
    (first second : Data) (name : String)
    → column name ≡ none
    → All IsColumnValue second
    → entry (update first second) name ≡ entry first name
unfolding update
entry-update first [] name free h = refl
entry-update first ((k, v) ∷ rest) name free (stored, h) =
    rw (get-put (update first rest) k name v) (elim (Bool-cases (k == name)) [
      | inl same ↦
          let taken : column name ≡ some stored.0 =
            subst (λ s. column s ≡ some stored.0) ((eq_iff k name).0 same) stored.1 in
          absurd (let wrong = sym free ∙ taken in cc)
      | inr other ↦ rw other (entry-update first rest name free h)
    ])

-- The entries that every location has.
pub record IsLocated (message : Fields) (info : TopicInfo) (d : Data) : Type 0 where
  pub t : ℤ
  pub instant : IsInstant t
  pub timestamp : entry d "timestamp" ≡ some (moment t)
  pub device : entry d "device" ≡ some (word info.device)
  pub latitude : entry d "latitude" ≡ some (number (value_of message "lat"))
  pub longitude : entry d "longitude" ≡ some (number (value_of message "lon"))

-- The copied fields leave the required ones as they are.
abbrev IsKept : String → Type 0
IsKept name =
    (("connection" == name) ≡ false)
    × (("battery" == name) ≡ false)
    × (("velocity" == name) ≡ false)
    × (("altitude" == name) ≡ false)
    × (("accuracy" == name) ≡ false)
    × (column name ≡ none)

module _ (message : Fields) (info : TopicInfo) where
  abbrev base : Json → Json → ℤ → Data
  base la lo t =
      ("device", word info.device)
      ∷ ("latitude", number la)
      ∷ ("longitude", number lo)
      ∷ ("timestamp", moment t)
      ∷ ("tracker_id", tracker (get message "tid") info.device)
      ∷ []

  entry-location_fields :
      (la lo : Json) (t : ℤ) (optional : Data) (name : String)
      → IsKept name
      → All IsColumnValue optional
      → entry (update (location_fields message info la lo t) optional) name
        ≡ entry (base la lo t) name
  unfolding location_fields
  entry-location_fields la lo t optional name (conn, batt, vel, alt, acc, free) h =
      entry-update (location_fields message info la lo t) optional name free h
      ∙ entry-copy_field (get message "conn") "connection" name _ conn
      ∙ entry-copy_field (get message "batt") "battery" name _ batt
      ∙ entry-copy_field (get message "vel") "velocity" name _ vel
      ∙ entry-copy_field (get message "alt") "altitude" name _ alt
      ∙ entry-copy_field (get message "acc") "accuracy" name _ acc

  float-eq-ok :
      (b : Bool) (v w : Json) (e : PyError) → (if b then ok v else raised e) ≡ ok w → w ≡ v
  float-eq-ok true v w x e = cc
  float-eq-ok false v w x e = cc

  float_self : (v w : Json) → float v ≡ ok w → w ≡ v
  unfolding float
  float_self Json.null w e = cc
  float_self (Json.boolean b) w e = cc
  float_self (Json.int n) w e = float-eq-ok _ (Json.int n) w _ e
  float_self (Json.float bits) w e = cc
  float_self (Json.text s) w e = float-eq-ok _ (Json.text s) w _ e
  float_self (Json.array _) w e = cc
  float_self (Json.object _) w e = cc

  built-IsLocated :
      (v w : Json) (t : ℤ) (optional : Data)
      → v ≡ value_of message "lat"
      → w ≡ value_of message "lon"
      → IsInstant t
      → All IsColumnValue optional
      → IsLocated message info (update (location_fields message info v w t) optional)
  unfolding column entry
  built-IsLocated v w t optional v_same w_same instant stored = record {
    t = t;
    instant = instant;
    timestamp =
        entry-location_fields v w t optional "timestamp" (refl, refl, refl, refl, refl, refl)
          stored;
    device =
        entry-location_fields v w t optional "device" (refl, refl, refl, refl, refl, refl) stored;
    latitude =
        entry-location_fields v w t optional "latitude" (refl, refl, refl, refl, refl, refl) stored
        ∙ ap (λ x. some (number x)) v_same;
    longitude =
        entry-location_fields v w t optional "longitude" (refl, refl, refl, refl, refl, refl) stored
        ∙ ap (λ x. some (number x)) w_same;
  }

  -- If a block returns data, that is a location's.
  abbrev AllLocated : Try (Option Data) → Type 0
  AllLocated result = (d : Data) → result ≡ ok (some d) → IsLocated message info d

  bind-AllLocated :
      {A : Type 0} (m : Try A) (k : A → Try (Option Data))
      → ((a : A) → m ≡ ok a → AllLocated (k a))
      → AllLocated (m >>= k)
  bind-AllLocated (ok a) k h d e = h a refl d e
  bind-AllLocated (raised x) k h d e = cc

  none-AllLocated : AllLocated (ok none)
  none-AllLocated d e = cc

  dated-IsLocated :
      (o : Option ℤ)
      → ((t : ℤ) → o ≡ some t → IsInstant t)
      → AllLocated (dated message info (value_of message "lat") (value_of message "lon") o)
  dated-IsLocated none instant = none-AllLocated
  dated-IsLocated (some t) instant = bind-AllLocated (float (value_of message "lat")) _ (λ v at.
      bind-AllLocated (float (value_of message "lon")) _ (λ w at'.
        bind-AllLocated (extract_location_optional_fields message) _ (λ optional read d e.
          subst (IsLocated message info) (cc) (
            built-IsLocated v w t optional (float_self _ v at) (float_self _ w at') (instant t refl)
              (extract_location_optional_fields-IsColumnValue message optional read)))))

  located-IsLocated :
      (tst : Json)
      → AllLocated (located message info (value_of message "lat") (value_of message "lon") tst)
  located-IsLocated tst =
      if-cases AllLocated _ (λ _. none-AllLocated)
        (λ _.
          bind-AllLocated (caught (int tst >>= fromtimestamp)) _
            (λ o at. dated-IsLocated o (λ t same. caught-IsInstant (int tst) (at ∙ ap ok same))))

  -- A location that is extracted has an instant in the years of `datetime` as its timestamp, the device of
  -- the topic, and the message's latitude and longitude as floats, whatever the message holds.
  pub extract_location_data-IsLocated :
      (d : Data) → extract_location_data message info ≡ ok (some d) → IsLocated message info d
  unfolding extract_location_data
  extract_location_data-IsLocated =
      if-cases AllLocated _ (λ _. none-AllLocated) (λ _. located-IsLocated (value_of message "tst"))
