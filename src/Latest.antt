-- ===== src/Latest.antt =====
-- The latest location of a device: app/location_report.py and app/location_latest.py, over the rows of
-- the tables of locations and devices. Instants are microseconds.
pub mod Order
pub mod Lookup
pub mod Pointer
use my_tracks.Base.{
  ℕ, Option, none, some, List, [], ◌∷◌, Bool, true, false, ltb, ◌==◌, compared_numbers,
  if◌then◌else◌,
}

pub record Location : Type 0 where
  pub id : ℕ
  pub device_id : ℕ
  pub timestamp : ℕ
  pub received_at : ℕ
  pub owntracks_created_at : Option ℕ

abbrev pub reported : Option ℕ → ℕ → ℕ
reported none received_at = received_at
reported (some created_at) received_at = created_at

unfoldable pub location_reported_at : Location → ℕ
location_reported_at location = reported location.owntracks_created_at location.received_at

-- A comparison of tuples of three is decided by the first components that differ.
abbrev pub tuple_greater : ℕ × ℕ × ℕ → ℕ × ℕ × ℕ → Bool
tuple_greater (a, b, c) (x, y, z) =
    if a == x then (if b == y then ltb z c else ltb y b) else ltb x a

unfoldable pub location_report_sort_key : Location → ℕ × ℕ × ℕ
location_report_sort_key location = (location_reported_at location, location.timestamp, location.id)

unfoldable pub location_is_newer_report : Location → Location → Bool
location_is_newer_report location than =
    tuple_greater (location_report_sort_key location) (location_report_sort_key than)

pub record DeviceRow : Type 0 where
  pub pk : ℕ
  pub latest_location : Option ℕ

pub record Database : Type 0 where
  pub locations : List Location
  pub devices : List DeviceRow

-- Location.objects.filter(device_id=pk)
unfoldable pub of_device : ℕ → List Location → List Location
of_device pk [] = []
of_device pk (l ∷ rows) =
    let rest = of_device pk rows in if l.device_id == pk then l ∷ rest else rest

unfoldable pub insert_by_report : Location → List Location → List Location
insert_by_report l [] = l ∷ []
insert_by_report l (m ∷ rows) =
    let rest = insert_by_report l rows in
    if location_is_newer_report l m then l ∷ m ∷ rows else m ∷ rest

-- The three descending columns of `order_by` are the sort key's components.
unfoldable pub order_by_report : List Location → List Location
order_by_report [] = []
order_by_report (l ∷ rows) = insert_by_report l (order_by_report rows)

abbrev pub first : List Location → Option Location
first [] = none
first (l ∷ rows) = some l

unfoldable pub latest_location_queryset : ℕ → List Location → List Location
latest_location_queryset pk rows = order_by_report (of_device pk rows)

-- Device.objects.filter(pk=pk).update(latest_location_id=value)
unfoldable pub update_latest : ℕ → Option ℕ → List DeviceRow → List DeviceRow
update_latest pk value [] = []
update_latest pk value (d ∷ rows) =
    (if d.pk == pk then record d { latest_location = value } else d) ∷ update_latest pk value rows

abbrev pub id_of : Option Location → Option ℕ
id_of none = none
id_of (some l) = some l.id

unfoldable pub refresh_device_latest_location : ℕ → Database → Database
refresh_device_latest_location pk db = record db {
  devices = update_latest pk (id_of (first (latest_location_queryset pk db.locations))) db.devices;
}

unfoldable pub find_row : ℕ → List DeviceRow → Option DeviceRow
find_row pk [] = none
find_row pk (d ∷ rows) = let found = find_row pk rows in if d.pk == pk then some d else found

unfoldable pub find_location : ℕ → List Location → Option Location
find_location id [] = none
find_location id (l ∷ rows) =
    let found = find_location id rows in if l.id == id then some l else found

-- `device.latest_location`
abbrev pub pointed : Option ℕ → List Location → Option Location
pointed none rows = none
pointed (some id) rows = find_location id rows

-- `current is None or location_is_newer_report(location, current)`
abbrev pub replaces : Location → Option Location → Bool
replaces l none = true
replaces l (some current) = location_is_newer_report l current

abbrev pub note_for : Location → Option DeviceRow → Database → Database
note_for l none db = db
note_for l (some d) db =
    if replaces l (pointed d.latest_location db.locations)
    then record db { devices = update_latest l.device_id (some l.id) db.devices }
    else db

unfoldable pub note_location_created : Location → Database → Database
note_location_created l db = note_for l (find_row l.device_id db.devices) db

-- An insertion, with the `post_save` signal that follows it.
unfoldable pub create_location : Location → Database → Database
create_location l db = note_location_created l (record db { locations = l ∷ db.locations })
