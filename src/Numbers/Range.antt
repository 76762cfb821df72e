-- ===== src/Numbers/Range.antt =====
-- The instants that `fromtimestamp` returns lie in the years of `datetime`.
use Prim.Native.Nat.{◌^◌}
use my_tracks.Base.{
  ℕ, ◌≤◌, ◌<◌, ◌≡◌, arith, leb→le, ltb→lt, Bool, true, false, if◌then◌else◌, subst, refl,
}
use my_tracks.Base.Int.{ℤ, pos, negsuc}
use my_tracks.Numbers.{
  ok, raised, value_error, overflow_error, fromtimestamp, seconds_before, seconds_after,
}

-- From 0001-01-01 00:00:00 to 9999-12-31 23:59:59, in seconds from the epoch.
abbrev pub IsInstant : ℤ → Type 0
IsInstant (pos n) = n ≤ seconds_after
IsInstant (negsuc n) = n < seconds_before

settled :
    (b c : Bool) (s : ℤ) {t : ℤ}
    → (b ≡ true → IsInstant s)
    → (if b then ok s else if c then raised value_error else raised overflow_error) ≡ ok t
    → IsInstant t
settled true c s {t} inside e = let same : s ≡ t = cc in subst IsInstant same (inside refl)
settled false true s inside e = cc
settled false false s inside e = cc

pub fromtimestamp-IsInstant : (s : ℤ) {t : ℤ} → fromtimestamp s ≡ ok t → IsInstant t
unfolding fromtimestamp
fromtimestamp-IsInstant (pos n) e = settled _ _ (pos n) (λ h. leb→le n seconds_after h) e
fromtimestamp-IsInstant (negsuc n) e = settled _ _ (negsuc n) (λ h. ltb→lt n seconds_before h) e

pub fromtimestamp-overflow : (n : ℕ) → 2 ^ 63 ≤ n → fromtimestamp (pos n) ≡ raised overflow_error
unfolding fromtimestamp
fromtimestamp-overflow n h = ground arith
