-- ===== src/Tests/Latest.antt =====
-- Two reports of one device, the later one built earlier.
use my_tracks.Base.{none, some, [], ◌∷◌, ◌≡◌, refl}
use my_tracks.Latest.{
  Location, Database, location_reported_at, location_report_sort_key, location_is_newer_report,
  insert_by_report, order_by_report, first,
}

abbrev early : Location
early = record {
  id = 1;
  device_id = 7;
  timestamp = 100;
  received_at = 120;
  owntracks_created_at = none;
}

abbrev late : Location
late = record {
  id = 2;
  device_id = 7;
  timestamp = 90;
  received_at = 200;
  owntracks_created_at = some 110;
}

abbrev db : Database
db = record {
  locations = early ∷ [];
  devices =
      record { pk = 7; latest_location = some 1 } ∷ record { pk = 8; latest_location = none } ∷ [];
}

top_row : first (order_by_report (late ∷ early ∷ [])) ≡ some early
unfolding order_by_report insert_by_report location_is_newer_report location_report_sort_key
    location_reported_at
top_row = refl
