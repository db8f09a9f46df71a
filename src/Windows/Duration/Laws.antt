-- ===== src/Windows/Duration/Laws.antt =====
-- How far the minutes of a maintenance window are from its duration
-- (internal/controller/maintenancewindow_controller.go).
use uptime_robot_operator.Prelude.{
  ℕ, zero, suc, ◌+◌, ◌*◌, ◌/◌, ◌%◌, ◌≤◌, ◌<◌, ◌≡◌, true, arith, ◌≢◌, ◌⊎◌,
}
use uptime_robot_operator.Prelude.Int.{pos, pos_part}
use uptime_robot_operator.Request.Fields.{minute}
use uptime_robot_operator.Windows.Duration.{
  half_units, is_absorbed, ceil_minutes, at_least_one, duration_minutes,
}

two_pow : ℕ → ℕ
two_pow zero = 1
two_pow (suc f) = 2 * two_pow f

two_pow_pos : (f : ℕ) → 0 < two_pow f
unfolding two_pow
two_pow_pos zero = omega arith
two_pow_pos (suc f) = omega (arith, two_pow_pos f)

half_units_ge : (f p n : ℕ) → 67_108_864 * two_pow f ≤ p → 67_108_864 ≤ half_units f p n
unfolding half_units two_pow
half_units_ge zero p n h = omega arith
half_units_ge (suc f) p n h =
    ground (arith, two_pow_pos f, half_units_ge f (p / 2) (n / 2) (omega arith))

-- more rounds than the binary digits of n change nothing
half_units_enough : (f p n : ℕ) → n < 2 * two_pow f → half_units (suc f) p n ≡ half_units f p n
unfolding half_units two_pow
half_units_enough zero p n h = ground arith
half_units_enough (suc f) p n h = ground (arith, half_units_enough f (p / 2) (n / 2) (omega arith))

mul_le : (r a b : ℕ) → a ≤ b → r * a ≤ r * b
mul_le zero a b h = omega arith
mul_le (suc r) a b h = omega (arith, mul_le r a b h)

enough : 67_108_864 * two_pow 27 ≤ 9_007_199_254_740_992
unfolding two_pow
enough = omega arith

-- A rest that is absorbed is less than a minute over 2 ^ 26.
absorbed_lt : (n r : ℕ) → is_absorbed n r ≡ true → r * 67_108_864 < minute
unfolding is_absorbed
absorbed_lt n r h =
    let ge : 67_108_864 ≤ half_units 27 9_007_199_254_740_992 n =
      half_units_ge 27 9_007_199_254_740_992 n (enough) in
    ground (arith, mul_le r _ _ ge)

-- The minutes sent are at least one. They are less than a minute above a duration that is not 0, and below
-- it by no more than 894 nanoseconds, which are lost where Minutes rounds; a duration of whole seconds is
-- never shortened.
pub duration_minutes_bounds :
    (d : ℕ)
    → let m = pos_part (duration_minutes (pos d)) in
      (1 ≤ m)
      × ((m * minute < d + minute) ⊎ (d ≡ 0))
      × (d ≤ m * minute + 894)
      × ((d % 1_000_000_000 ≢ 0) ⊎ (d ≤ m * minute))
unfolding duration_minutes at_least_one ceil_minutes
duration_minutes_bounds d = ground (arith, absorbed_lt (d / minute) (d % minute))
