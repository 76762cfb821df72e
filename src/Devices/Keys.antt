-- ===== src/Devices/Keys.antt =====
-- The keys of devices, under the updates of the table.
use my_tracks.Base.{
  ℕ, ◌<◌, String, List, [], ◌∷◌, ◌++◌, All, All-append, Bool, true, false, ◌==◌, compared_numbers,
  compared_texts, if◌then◌else◌, ◌≡◌, ◌≢◌, refl, arith, sym, ◌∙◌, subst, if-cases,
}
use my_tracks.Devices.{Device, update_device, devices_named}

-- No two devices have one key.
abbrev pub IsKeyed : List Device → Type 0
IsKeyed [] = Unit
IsKeyed (d ∷ devices) = All (λ (e : Device). e.pk ≢ d.pk) devices × IsKeyed devices

pub All-map {ℓ κ μ} :
    {A : Type ℓ} (P : A → Type κ) (Q : A → Type μ) (xs : List A)
    → ((x : A) → P x → Q x)
    → All P xs
    → All Q xs
All-map P Q [] f h = tt
All-map P Q (x ∷ xs) f h = (f x h.0, All-map P Q xs f h.1)

pub row_keys-update_device :
    (n pk : ℕ) (change : Device → Device)
    → ((d : Device) → (change d).pk ≡ d.pk)
    → (devices : List Device) → All (λ (d : Device). d.pk < n) devices
    → All (λ (d : Device). d.pk < n) (update_device pk change devices)
unfolding update_device
row_keys-update_device n pk change keeps [] h = tt
row_keys-update_device n pk change keeps (d ∷ devices) h = (
  if-cases (λ (x : Device). x.pk < n) (d.pk == pk) (λ _. subst (λ k. k < n) (sym (keeps d)) h.0)
      (λ _. h.0),
  row_keys-update_device n pk change keeps devices h.1,
)

pub update_device-IsKeyed :
    (pk : ℕ) (change : Device → Device)
    → ((d : Device) → (change d).pk ≡ d.pk)
    → (devices : List Device) → IsKeyed devices
    → IsKeyed (update_device pk change devices)
unfolding update_device
update_device-IsKeyed pk change keeps [] h = tt
update_device-IsKeyed pk change keeps (d ∷ devices) (apart, h) = (
  apart_from (if d.pk == pk then change d else d) (same_key (d.pk == pk)) devices apart,
  update_device-IsKeyed pk change keeps devices h,
)
  where
    same_key : (b : Bool) → (if b then change d else d).pk ≡ d.pk
    same_key true = keeps d
    same_key false = refl

    apart_from :
        (x : Device)
        → x.pk ≡ d.pk
        → (others : List Device) → All (λ (e : Device). e.pk ≢ d.pk) others
        → All (λ (e : Device). e.pk ≢ x.pk) (update_device pk change others)
    apart_from x same [] g = tt
    apart_from x same (e ∷ others) g = (
      if-cases (λ (y : Device). y.pk ≢ x.pk) (e.pk == pk)
          (λ _ clash. g.0 (sym (keeps e) ∙ clash ∙ same)) (λ _ clash. g.0 (clash ∙ same)),
      apart_from x same others g.1,
    )

pub append-IsKeyed :
    (devices : List Device) (x : Device)
    → All (λ (d : Device). d.pk < x.pk) devices
    → IsKeyed devices
    → IsKeyed (devices ++ x ∷ [])
append-IsKeyed [] x below h = (tt, tt)
append-IsKeyed (d ∷ devices) x below (apart, h) = (
  All-append _ devices _ apart (λ clash. absurd (omega (arith, below.0)), tt),
  append-IsKeyed devices x below.1 h,
)

-- A device that is found is one of the rows.
pub devices_named-All {ℓ} :
    (P : Device → Type ℓ) (device_id : String) (devices : List Device)
    → All P devices
    → All P (devices_named device_id devices)
unfolding devices_named
devices_named-All P device_id [] h = tt
devices_named-All P device_id (d ∷ devices) h =
    elim (d.device_id == device_id)
      as (λ b.
        All P
          (if b then d ∷ devices_named device_id devices else devices_named device_id devices)) [
            | true ↦ (h.0, devices_named-All P device_id devices h.1)
            | false ↦ devices_named-All P device_id devices h.1
          ]

-- A row is known by its key.
abbrev pub IsKeyOf : List Device → Device → Type 0
IsKeyOf devices x = All (λ (d : Device). d.pk ≡ x.pk → d ≡ x) devices

pub IsKeyed-IsKeyOf : (devices : List Device) → IsKeyed devices → All (IsKeyOf devices) devices
IsKeyed-IsKeyOf [] h = tt
IsKeyed-IsKeyOf (d ∷ devices) (apart, h) = (
  (λ _. refl, All-map _ _ devices (λ e other same. absurd (other same)) apart),
  later devices apart (IsKeyed-IsKeyOf devices h),
)
  where
    later :
        (xs : List Device)
        → All (λ (e : Device). e.pk ≢ d.pk) xs
        → All (IsKeyOf devices) xs
        → All (IsKeyOf (d ∷ devices)) xs
    later [] g k = tt
    later (x ∷ xs) g k = ((λ same. absurd (g.0 (sym same)), k.0), later xs g.1 k.1)
