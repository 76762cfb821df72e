-- ===== src/Latest/Order.antt =====
-- The order of reports, and the first row of the ordered rows of a device.
use my_tracks.Base.{
  ℕ, Option, none, some, List, [], ◌∷◌, All, true, false, ◌==◌, compared_numbers, if◌then◌else◌,
  ◌≡◌, refl, arith, ap, sym, ◌∙◌, inl, inr, Bool-cases, Option-cases, subst,
}
use mathlib.Core.List.{Mem, mem-cons_self, mem-cons_of_mem}
use mathlib.Core.Option.{some-injective}
use my_tracks.Latest.{
  Location, location_report_sort_key, location_is_newer_report, tuple_greater, of_device,
  insert_by_report, order_by_report, first, latest_location_queryset,
}

abbrev pub Key : Type 0
Key = ℕ × ℕ × ℕ

-- Tuples are ordered strictly and totally.
tuple_greater_trans :
    (p q r : Key) → tuple_greater p q ≡ true → tuple_greater q r ≡ true → tuple_greater p r ≡ true
tuple_greater_trans (a, b, c) (x, y, z) (k, l, m) h g = ground (
  arith,
  compared_numbers.agree_iff a x,
  compared_numbers.agree_iff b y,
  compared_numbers.agree_iff x k,
  compared_numbers.agree_iff y l,
  compared_numbers.agree_iff a k,
  compared_numbers.agree_iff b l,
)

tuple_greater_irrefl : (p : Key) → tuple_greater p p ≡ false
tuple_greater_irrefl (a, b, c) =
    ground (arith, compared_numbers.agree_iff a a, compared_numbers.agree_iff b b)

module _ (l m n : Location) where
  pub newer_trans :
      location_is_newer_report l m ≡ true
      → location_is_newer_report m n ≡ true
      → location_is_newer_report l n ≡ true
  unfolding location_is_newer_report
  newer_trans =
      tuple_greater_trans (location_report_sort_key l) (location_report_sort_key m)
        (location_report_sort_key n)

-- What the first of the ordered rows becomes with one more row.
abbrev pub better : Location → Option Location → Location
better l none = l
better l (some m) = if location_is_newer_report l m then l else m

module _ (l m : Location) where
  pub better_newer : location_is_newer_report l m ≡ true → better l (some m) ≡ l
  better_newer e = rw e refl

  pub better_older : location_is_newer_report l m ≡ false → better l (some m) ≡ m
  better_older e = rw e refl

first-insert_by_report :
    (l : Location) (rows : List Location)
    → first (insert_by_report l rows) ≡ some (better l (first rows))
unfolding insert_by_report
first-insert_by_report l [] = refl
first-insert_by_report l (m ∷ rows) = elim (Bool-cases (location_is_newer_report l m)) [
  | inl newer ↦ rw newer refl
  | inr older ↦ rw older refl
]

abbrev pub newest : ℕ → List Location → Option Location
newest pk rows = first (latest_location_queryset pk rows)

pub newest-cons :
    (pk : ℕ) (l : Location) (rows : List Location)
    → newest pk (l ∷ rows)
      ≡ (if l.device_id == pk then some (better l (newest pk rows)) else newest pk rows)
unfolding latest_location_queryset of_device order_by_report
newest-cons pk l rows = elim (Bool-cases (l.device_id == pk)) [
  | inl own ↦ rw own (first-insert_by_report l _)
  | inr other ↦ rw other refl
]

pub newer_irrefl : (l : Location) → location_is_newer_report l l ≡ false
unfolding location_is_newer_report
newer_irrefl l = tuple_greater_irrefl (location_report_sort_key l)

-- A row than which none of `rows` is newer.
abbrev pub IsNewest : Location → List Location → Type 0
IsNewest y rows = All (λ l. location_is_newer_report l y ≡ false) rows

IsNewest-trans :
    (l m : Location) (rows : List Location)
    → location_is_newer_report l m ≡ true
    → IsNewest m rows
    → IsNewest l rows
IsNewest-trans l m [] newer h = tt
IsNewest-trans l m (k ∷ rows) newer h = (
  elim (Bool-cases (location_is_newer_report k l)) [
    | inl above ↦ (let both = newer_trans k l m above newer in ground (arith, h.0))
    | inr below ↦ below
  ],
  IsNewest-trans l m rows newer h.1,
)

first-none : (rows : List Location) → first (order_by_report rows) ≡ none → rows ≡ []
unfolding order_by_report
first-none [] e = refl
first-none (l ∷ rows) e =
    (let held = sym (first-insert_by_report l (order_by_report rows)) ∙ e in cc)

abbrev IsFirst : Location → List Location → Type 0
IsFirst y rows = Mem y rows × IsNewest y rows

-- The first of the rows that the database has ordered, if there is one, is one of them, and none of
-- them is a newer report.
pub first-order_by_report :
    (rows : List Location) (y : Location)
    → first (order_by_report rows) ≡ some y
    → Mem y rows × IsNewest y rows
unfolding order_by_report
first-order_by_report [] y e = absurd (let wrong = e in cc)
first-order_by_report (l ∷ rows) y e =
    let same : better l (first (order_by_report rows)) ≡ y =
      some-injective _ _ (sym (first-insert_by_report l (order_by_report rows)) ∙ e) in
    elim (Option-cases (first (order_by_report rows))) [
      | inl empty ↦
          subst (λ z. IsFirst z (l ∷ rows)) (ap (better l) (sym empty) ∙ same)
            (mem-cons_self, (newer_irrefl l, subst (IsNewest l) (sym (first-none rows empty)) tt))
      | inr (m, best) ↦
          let (among, highest) = first-order_by_report rows m best in
          let chosen : better l (some m) ≡ y = ap (better l) (sym best) ∙ same in
          elim (Bool-cases (location_is_newer_report l m)) [
            | inl newer ↦
                subst (λ z. IsFirst z (l ∷ rows)) (sym (better_newer l m newer) ∙ chosen)
                  (mem-cons_self, (newer_irrefl l, IsNewest-trans l m rows newer highest))
            | inr older ↦
                subst (λ z. IsFirst z (l ∷ rows)) (sym (better_older l m older) ∙ chosen)
                  (mem-cons_of_mem l among, (older, highest))
          ]
    ]
