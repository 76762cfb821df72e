-- ===== src/Friends/Visible.antt =====
-- Which devices a user may look at: _visible_devices_for_user of app/views.py.
use my_tracks.Base.{ℕ, List, Bool, not, any, ◌||◌, compared_numbers, true, false}
use my_tracks.Devices.{Device}
use my_tracks.Friends.{without}
use my_tracks.Friends.Shares.{owner_is, is_share}

-- Q(owner=user) | Q(shares__shared_with=user)
abbrev pub is_visible : ℕ → List (ℕ × ℕ) → Device → Bool
is_visible user shares device = owner_is user device.owner || any (is_share device.pk user) shares

unfoldable pub visible_devices_for_user : Bool → ℕ → List Device → List (ℕ × ℕ) → List Device
visible_devices_for_user true user devices shares = devices
visible_devices_for_user false user devices shares =
    without (λ d. not (is_visible user shares d)) devices
