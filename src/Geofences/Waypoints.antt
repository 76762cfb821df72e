-- ===== src/Geofences/Waypoints.antt =====
-- The rows of waypoints, after a device has published its list once and again.
use my_tracks.Base.{
  ℕ, ◌+◌, String, Option, none, some, List, [], ◌∷◌, ◌++◌, Bool, ◌==◌, compared_texts, ◌⊎◌, length,
  length-append, ◌≡◌, ◌≢◌, refl, arith, sym, ap, ◌∙◌, subst, eq_iff, Bool-cases, Option-cases, inl,
  inr,
}
use my_tracks.Base.Int.{ℤ}
use my_tracks.Json.{Json}
use mathlib.Core.List.{append-nil, append_assoc}
use my_tracks.Base.Table.{get}
use my_tracks.Numbers.{Try, ok, raised}
use my_tracks.Extraction.{Waypoint, Data}
use my_tracks.Devices.{Device, WaypointRow, Store, devices_named}
use my_tracks.Devices.Updates.{word_of}
use my_tracks.Geofences.{
  waypoint_with, waypoints_of, valid_waypoints, Progress, save_row, go_on, save_each, counted,
  save_owned, save_of, save_named, save_waypoints_to_db, waypoint_row,
}

-- Rows that keep every row found in others.
abbrev Extends : List WaypointRow → List WaypointRow → Type 0
Extends rows after =
    (rid : String) (w : WaypointRow)
    → waypoint_with rid rows ≡ some w
    → waypoint_with rid after ≡ some w

waypoint_with-append :
    (rid : String) (rows more : List WaypointRow) (w : WaypointRow)
    → waypoint_with rid rows ≡ some w
    → waypoint_with rid (rows ++ more) ≡ some w
unfolding waypoint_with
waypoint_with-append rid [] more w e = cc
waypoint_with-append rid (x ∷ rows) more w e = elim (Bool-cases (x.rid == rid)) [
  | inl same ↦ rw same (rw same at e)
  | inr other ↦ rw other (waypoint_with-append rid rows more w (rw other at e))
]

waypoint_with-append_self :
    (row : WaypointRow) (rows : List WaypointRow)
    → waypoint_with row.rid rows ≡ none
    → waypoint_with row.rid (rows ++ row ∷ []) ≡ some row
unfolding waypoint_with
waypoint_with-append_self row [] e = rw ((eq_iff row.rid row.rid).1 refl) refl
waypoint_with-append_self row (x ∷ rows) e = elim (Bool-cases (x.rid == row.rid)) [
  | inl same ↦ absurd (let wrong : some x ≡ none = rw same at e in cc)
  | inr other ↦ rw other (waypoint_with-append_self row rows (rw other at e))
]

module _ (rid_of : ℕ → Json → Json → Json → ℤ → String) (accepts : WaypointRow → Bool) where
  -- One waypoint: it fails however often it is tried on these rows, or it leaves rows on which it is a
  -- known one from then on.
  data Tried (t : Try WaypointRow) (count : ℕ) (rows : List WaypointRow) : Type 0 where
    failing :
        ((again : ℕ) → save_row rid_of accepts t again rows ≡ (none, rows)) → Tried t count rows
    settled :
        (c : ℕ) (added : List WaypointRow)
        → save_row rid_of accepts t count rows ≡ (some c, rows ++ added)
        → c ≡ count + length added
        → ((again : ℕ) (after : List WaypointRow)
            → Extends (rows ++ added) after
            → save_row rid_of accepts t again after ≡ (some again, after))
        → Tried t count rows

  save_row-Tried : (t : Try WaypointRow) (count : ℕ) (rows : List WaypointRow) → Tried t count rows
  save_row-Tried (raised e) count rows = failing (λ again. refl)
  save_row-Tried (ok row) count rows = elim (Option-cases (waypoint_with row.rid rows)) [
    | inr (w, known) ↦
        settled count [] (rw known (ap (λ l. (some count, l)) (sym (append-nil rows))))
          (omega arith)
          (λ again after ext.
            rw (ext row.rid w (waypoint_with-append row.rid rows [] w known)) refl)
    | inl new ↦ elim (Bool-cases (accepts row)) [
      | inl good ↦
          settled (count + 1) (row ∷ []) (rw new (rw good refl)) (omega arith)
            (λ again after ext. rw (ext row.rid row (waypoint_with-append_self row rows new)) refl)
      | inr bad ↦ failing (λ again. rw new (rw bad refl))
    ]
  ]

  module _ (owner : ℕ) where
    -- A whole pass, and what a second one over what it leaves does.
    record Passed (wps : List Waypoint) (count : ℕ) (rows : List WaypointRow)
        (result : Progress rid_of accepts) : Type 0 where
      added : List WaypointRow
      extended : result.1 ≡ rows ++ added
      number : (c : ℕ) → result.0 ≡ some c → c ≡ count + length added
      again_count : ℕ → Option ℕ
      again_known : (again : ℕ) → (again_count again ≡ none) ⊎ (again_count again ≡ some again)
      again_same :
          (again : ℕ)
          → save_each rid_of accepts owner wps again result.1 ≡ (again_count again, result.1)

    module _ (wp : Waypoint) (wps : List Waypoint)
        (later : (count : ℕ) (rows : List WaypointRow)
          → Passed wps count rows (save_each rid_of accepts owner wps count rows)) where
      step-Passed :
          (count : ℕ) (rows : List WaypointRow)
          → Tried (waypoint_row rid_of accepts owner wp) count rows
          → Passed (wp ∷ wps) count rows (
              go_on rid_of accepts
                (save_row rid_of accepts (waypoint_row rid_of accepts owner wp) count rows)
                (save_each rid_of accepts owner wps))
      unfolding save_each
      step-Passed count rows (failing e) = rw (e count) (record {
        added = [];
        extended = sym (append-nil rows);
        number = λ c f. cc;
        again_count = λ again. none;
        again_known = λ again. inl refl;
        again_same = λ again. rw (e again) refl;
      })
      step-Passed count rows (settled c added e number known) =
          let rest = later c (rows ++ added) in
          let kept : Extends (rows ++ added)
              (save_each rid_of accepts owner wps c (rows ++ added)).1 =
            λ rid w held.
              subst (λ l. waypoint_with rid l ≡ some w) (sym rest.extended)
                (waypoint_with-append rid (rows ++ added) rest.added w held) in
          rw e (record {
            added = added ++ rest.added;
            extended = rest.extended ∙ append_assoc rows added rest.added;
            number = λ n f. omega (arith, rest.number n f, number, length-append added rest.added);
            again_count = rest.again_count;
            again_known = rest.again_known;
            again_same = λ again. rw (known again _ kept) (rest.again_same again);
          })

    save_each-Passed :
        (wps : List Waypoint) (count : ℕ) (rows : List WaypointRow)
        → Passed wps count rows (save_each rid_of accepts owner wps count rows)
    unfolding save_each
    save_each-Passed [] count rows = record {
      added = [];
      extended = sym (append-nil rows);
      number = λ c e. let same : count ≡ c = cc in omega arith;
      again_count = some;
      again_known = λ again. inr refl;
      again_same = λ again. refl;
    }
    save_each-Passed (wp ∷ wps) count rows =
        step-Passed wp wps (save_each-Passed wps) count rows
          (save_row-Tried (waypoint_row rid_of accepts owner wp) count rows)

  -- What a call does to the rows: it returns the number of the rows that it adds, or 0.
  abbrev Adds : List WaypointRow → ℕ × List WaypointRow → Type 0
  Adds rows result =
      (added : List WaypointRow) × (result.1 ≡ rows ++ added)
      × (result.0 ≢ 0 → result.0 ≡ length added)

  none_added : (rows : List WaypointRow) → Adds rows (0, rows)
  none_added rows = ([], sym (append-nil rows), λ more. absurd (more refl))

  module _ (wps : List Waypoint) (rows : List WaypointRow) where
    abbrev Once : (List WaypointRow → ℕ × List WaypointRow) → Type 0
    Once save = Adds rows (save rows) × (save (save rows).1 ≡ (0, (save rows).1))

    save_owned-Once : (o : Option ℕ) → Once (save_owned rid_of accepts o wps)
    save_owned-Once none = (none_added rows, refl)
    save_owned-Once (some owner) =
        let p = save_each-Passed owner wps 0 rows in
        (
          (p.added, p.extended, counted_added _ (λ c e. p.number c e)),
          rw (p.again_same 0) (
              ap (λ n. (n, (save_each rid_of accepts owner wps 0 rows).1))
                (uncounted _ (p.again_known 0))),
        )
      where
        counted_added :
            {n : ℕ} (o : Option ℕ)
            → ((c : ℕ) → o ≡ some c → c ≡ 0 + n)
            → counted rid_of accepts o ≢ 0
            → counted rid_of accepts o ≡ n
        counted_added none h more = absurd (more refl)
        counted_added (some c) h more = omega (arith, h c refl)

        uncounted : (o : Option ℕ) → (o ≡ none) ⊎ (o ≡ some 0) → counted rid_of accepts o ≡ 0
        uncounted o (inl e) = rw e refl
        uncounted o (inr e) = rw e refl

  save_of-Once :
      (devices : List Device) (wps : List Waypoint) (rows : List WaypointRow)
      → Once wps rows (save_of rid_of accepts devices wps)
  save_of-Once [] wps rows = (none_added rows, refl)
  save_of-Once (d ∷ []) wps rows = save_owned-Once (valid_waypoints wps) rows d.owner
  save_of-Once (_ ∷ _ ∷ _) wps rows = (none_added rows, refl)

  -- A list of waypoints that a device publishes adds rows after those that are there and changes none of
  -- them; the count that is returned, if it is not 0, is that of the rows added; and the same list
  -- published again, even where the first time ended with an exception, adds nothing and returns 0.
  pub save_waypoints_to_db-Once :
      (waypoint_data : Data) (store : Store)
      → (added : List WaypointRow) × ((save_waypoints_to_db rid_of accepts waypoint_data store).1
          ≡ record store { waypoints = store.waypoints ++ added })
        × ((save_waypoints_to_db rid_of accepts waypoint_data store).0 ≢ 0
            → (save_waypoints_to_db rid_of accepts waypoint_data store).0 ≡ length added)
        × (save_waypoints_to_db rid_of accepts waypoint_data
              (save_waypoints_to_db rid_of accepts waypoint_data store).1
            ≡ (0, (save_waypoints_to_db rid_of accepts waypoint_data store).1))
  unfolding save_waypoints_to_db
  save_waypoints_to_db-Once waypoint_data store =
      saved (word_of (get waypoint_data "device")) (waypoints_of (get waypoint_data "waypoints"))
    where
      in_rows : List WaypointRow → Store
      in_rows rows = record store { waypoints = rows }

      both : ℕ × List WaypointRow → ℕ × Store
      both r = (r.0, in_rows r.1)

      saved :
          (o : Option String) (wps : List Waypoint)
          → (added : List WaypointRow) × (in_rows (save_named rid_of accepts o wps store).1
              ≡ record store { waypoints = store.waypoints ++ added })
            × ((save_named rid_of accepts o wps store).0 ≢ 0
                → (save_named rid_of accepts o wps store).0 ≡ length added)
            × (both (
                  save_named rid_of accepts o wps
                    (in_rows (save_named rid_of accepts o wps store).1))
                ≡ (0, in_rows (save_named rid_of accepts o wps store).1))
      saved none wps =
          ([], ap in_rows (sym (append-nil store.waypoints)), (λ more. absurd (more refl)), refl)
      saved (some device_id) wps =
          let (adds, once) =
            save_of-Once (devices_named device_id store.devices) wps store.waypoints in
          (adds.0, ap in_rows adds.1, adds.2, ap both once)
