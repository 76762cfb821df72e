-- ===== src/Extraction/Columns.antt =====
-- The columns of the locations that optional fields are written to (app/models.py), and what
-- `extract_location_optional_fields` reads for them.
use my_tracks.Base.{
  leb, ◌&&◌, ◌⊎◌, inl, inr, ℕ, ◌≤◌, String, Option, none, some, All, Bool, true, false, ◌==◌,
  compared_texts, if◌then◌else◌, ◌≡◌, refl, arith, subst,
}
use my_tracks.Base.Int.{ℤ, pos, negsuc}
use my_tracks.Base.Table.{put-All}
use my_tracks.Json.{Json, Items, Fields, get}
use my_tracks.Numbers.{
  value_error, type_error, os_error, overflow_error, Try, ok, raised, ◌>>=◌, bind-eq-ok, int,
  fromtimestamp,
}
use my_tracks.Numbers.Range.{IsInstant, fromtimestamp-IsInstant}
use my_tracks.Extraction.{
  Value, json, moment, integer, cut, Data, value_of, is_null, caught,
  parse_owntracks_unix_timestamp, optional_int, put_if, cut_field, int_field, region_field,
  extract_location_optional_fields,
}

-- CharField with its max_length, IntegerField with the least and the greatest of the integers that every
-- database takes, DateTimeField and JSONField.
pub data Column : Type 0 where
  chars : ℕ → Column
  integers : ℤ → ℤ → Column
  instants document : Column

-- IntegerField: 32 bits with a sign.
abbrev pub integer_column : Column
integer_column = integers (negsuc 2147483647) (pos 2147483647)

unfoldable pub column : String → Option Column
column name =
    if name == "owntracks_message_id"
    then some (chars 64)
    else if name == "owntracks_created_at"
    then some instants
    else if name == "trigger"
    then some (chars 10)
    else if name == "battery_status"
    then some integer_column
    else if name == "fix_source"
    then some (chars 20)
    else if name == "vertical_accuracy"
    then some integer_column
    else if name == "course"
    then some integer_column
    else if name == "monitoring_mode"
    then some integer_column
    else if name == "wifi_bssid"
    then some (chars 32)
    else if name == "wifi_ssid"
    then some (chars 64)
    else if name == "in_regions"
    then some document
    else none

abbrev pub at_most : ℤ → ℤ → Bool
at_most (pos m) (pos n) = leb m n
at_most (pos m) (negsuc n) = false
at_most (negsuc m) (pos n) = true
at_most (negsuc m) (negsuc n) = leb n m

abbrev pub Holds : Column → Value → Type 0
Holds (chars limit) v = (n : ℕ) × (j : Json) × (v ≡ cut n j) × (n ≤ limit)
Holds (integers low high) v =
    (n : ℤ) × (v ≡ integer n) × (at_most low n ≡ true) × (at_most n high ≡ true)
Holds instants v = (t : ℤ) × (v ≡ moment t) × IsInstant t
Holds document v = (regions : Items) × (v ≡ json (Json.array regions))

-- An integer that is outside the column's range.
abbrev pub Exceeds : Column → Value → Type 0
Exceeds (integers low high) v =
    (n : ℤ) × (v ≡ integer n) × ((at_most low n && at_most n high) ≡ false)
Exceeds (chars limit) v = ⊥
Exceeds instants v = ⊥
Exceeds document v = ⊥

-- A value of its column's kind: one that the column takes, or an integer out of the column's range.
abbrev pub IsColumnValue : String × Value → Type 0
IsColumnValue (name, v) = (c : Column) × (column name ≡ some c) × (Holds c v ⊎ Exceeds c v)

cut_field-IsColumnValue :
    (o : Option Json) (name : String) (size : ℕ) (fields : Data)
    → column name ≡ some (chars size)
    → All IsColumnValue fields
    → All IsColumnValue (cut_field o name size fields)
cut_field-IsColumnValue none name size fields at h = h
cut_field-IsColumnValue (some v) name size fields at h =
    put-All IsColumnValue _ name (cut size v) (chars size, at, inl (size, v, refl, omega arith)) h

ranged : (n : ℤ) → Holds integer_column (integer n) ⊎ Exceeds integer_column (integer n)
ranged n = go (at_most (negsuc 2147483647) n) (at_most n (pos 2147483647)) refl refl
  where
    go :
        (a b : Bool)
        → at_most (negsuc 2147483647) n ≡ a
        → at_most n (pos 2147483647) ≡ b
        → Holds integer_column (integer n) ⊎ Exceeds integer_column (integer n)
    go true true ea eb = inl (n, refl, ea, eb)
    go true false ea eb = inr (n, refl, rw (ea, eb) refl)
    go false b ea eb = inr (n, refl, rw ea refl)

put_if-IsColumnValue :
    (o : Option ℤ) (name : String) (fields : Data)
    → column name ≡ some integer_column
    → All IsColumnValue fields
    → All IsColumnValue (put_if integer name o fields)
put_if-IsColumnValue none name fields at h = h
put_if-IsColumnValue (some n) name fields at h =
    put-All IsColumnValue _ name (integer n) (integer_column, at, ranged n) h

-- If a block returns, all that it returns is storable.
abbrev AllStored : Try Data → Type 0
AllStored result = (out : Data) → result ≡ ok out → All IsColumnValue out

bind-AllStored :
    {A : Type 0} (m : Try A) (k : A → Try Data)
    → ((a : A) → m ≡ ok a → AllStored (k a))
    → AllStored (m >>= k)
bind-AllStored (ok a) k h out e = h a refl out e
bind-AllStored (raised x) k h out e = cc

ok-AllStored : (fields : Data) → All IsColumnValue fields → AllStored (ok fields)
ok-AllStored fields h out e = subst (All IsColumnValue) (cc) h

int_field-AllStored :
    (o : Option Json) (name : String) (fields : Data)
    → column name ≡ some integer_column
    → All IsColumnValue fields
    → AllStored (int_field o name fields)
int_field-AllStored none name fields at h = ok-AllStored fields h
int_field-AllStored (some v) name fields at h =
    bind-AllStored (optional_int v) (λ n. ok (put_if integer name n fields))
      (λ n _. ok-AllStored _ (put_if-IsColumnValue n name fields at h))

bind_int_field :
    (o : Option Json) (name : String) (fields : Data) (k : Data → Try Data)
    → column name ≡ some integer_column
    → All IsColumnValue fields
    → ((out : Data) → All IsColumnValue out → AllStored (k out))
    → AllStored (int_field o name fields >>= k)
bind_int_field o name fields k at h next =
    bind-AllStored (int_field o name fields) k
      (λ out e. next out (int_field-AllStored o name fields at h out e))

region_field-IsColumnValue :
    (o : Option Json) (fields : Data)
    → All IsColumnValue fields
    → All IsColumnValue (region_field o fields)
unfolding column
region_field-IsColumnValue (some (Json.array regions)) fields h =
    put-All IsColumnValue _ "in_regions" (json (Json.array regions))
      (document, refl, inl (regions, refl)) h
region_field-IsColumnValue _ fields h = h

caught-eq-some : {A : Type 0} (m : Try A) {a : A} → caught m ≡ ok (some a) → m ≡ ok a
caught-eq-some (ok x) e = cc
caught-eq-some (raised value_error) e = cc
caught-eq-some (raised type_error) e = cc
caught-eq-some (raised os_error) e = cc
caught-eq-some (raised overflow_error) e = cc

pub caught-IsInstant :
    (m : Try ℤ) {t : ℤ} → caught (m >>= fromtimestamp) ≡ ok (some t) → IsInstant t
caught-IsInstant m e =
    let (s, _, at) = bind-eq-ok m fromtimestamp (caught-eq-some (m >>= fromtimestamp) e) in
    fromtimestamp-IsInstant s at

created-IsColumnValue :
    (value : Json) (o : Option ℤ) (fields : Data)
    → parse_owntracks_unix_timestamp value ≡ ok o
    → All IsColumnValue fields
    → All IsColumnValue (put_if moment "owntracks_created_at" o fields)
unfolding parse_owntracks_unix_timestamp column
created-IsColumnValue value none fields e h = h
created-IsColumnValue value (some t) fields e h =
    put-All IsColumnValue _ "owntracks_created_at" (moment t)
      (instants, refl, inl (t, refl, instant (is_null value) e)) h
  where
    instant :
        (b : Bool)
        → (if b then ok none else caught (int value >>= fromtimestamp)) ≡ ok (some t)
        → IsInstant t
    instant true e' = cc
    instant false e' = caught-IsInstant (int value) e'

-- What the optional fields of any message are read as: each name is one of the model's columns, a text is
-- cut to the column's max_length, the time of creation lies in the years of `datetime`, regions are an
-- array, and a value of an integer column is an integer, which is either in the 32 bits of that column or
-- passed on although it is not. No other value is out of its column's range.
pub extract_location_optional_fields-IsColumnValue :
    (message : Fields) (fields : Data)
    → extract_location_optional_fields message ≡ ok fields
    → All IsColumnValue fields
unfolding extract_location_optional_fields column
extract_location_optional_fields-IsColumnValue message fields e =
    let read : String → Option Json = λ key. get message key in
    bind-AllStored (parse_owntracks_unix_timestamp (value_of message "created_at")) _
      (λ created_at created.
        bind_int_field (read "bs") "battery_status" _ _ refl
          (cut_field-IsColumnValue (read "t") "trigger" 10 _ refl (
            created-IsColumnValue (value_of message "created_at") created_at _ created
              (cut_field-IsColumnValue (read "_id") "owntracks_message_id" 64 _ refl tt)))
          (λ battery h.
            bind_int_field (read "vac") "vertical_accuracy" _ _ refl
              (cut_field-IsColumnValue (read "source") "fix_source" 20 _ refl h)
              (λ vertical g. bind_int_field (read "cog") "course" _ _ refl g (λ course p.
                bind_int_field (read "m") "monitoring_mode" _ _ refl p (λ mode q. ok-AllStored _ (
                  region_field-IsColumnValue (read "inregions") _ (
                    cut_field-IsColumnValue (read "SSID") "wifi_ssid" 64 _ refl
                      (cut_field-IsColumnValue (read "BSSID") "wifi_bssid" 32 _ refl q))))))))
      fields e
