-- ===== src/Device/Strings/Laws.antt =====
-- The string indices of configurations, and those that are given to functions.
use native.Mathlib.Nat.{
  add-mul-div_right, add-mul-mod_self_right, mod-eq_of_lt, div-eq_of_lt, mul-le-mul_right, mul_comm,
  suc-mul,
}
use c2usb.Base.{ℕ, ◌+◌, ◌-◌, ◌*◌, ◌/◌, ◌%◌, ◌^◌, ◌≤◌, ◌<◌, ◌≡◌, ap, ap₂, ◌∙◌, arith, true}
use c2usb.Core.{Settings}
use c2usb.Device.Strings.{istr_config_base, config_istring, config_of_istring, istr_global_base}
use c2usb.Usb.Speed.{Speed, speeds_valid, includes, speeds_count, offset, speed_at}
use c2usb.Usb.Speed.Laws.{speed_at-offset}

wrapped_base : (k : ℕ) → k < 253 → (2 ^ 64 + 253 - k) % 2 ^ 8 ≡ 253 - k
wrapped_base k h = omega arith

-- A place in a table of `n` rows of `width` each.
place_in_table : (i o n width : ℕ) → i < width → o < n → i + o * width < width * n
place_in_table i o n width hi ho =
    omega (arith, mul-le-mul_right width ho, suc-mul o width, mul_comm n width)

there_and_back :
    (place base total : ℕ)
    → place < total
    → total < 253
    → base ≡ 253 - total
    → let index = (place % 2 ^ 8 + base) % 2 ^ 8 in
      ((2 ^ 8 + index - base) % 2 ^ 8 ≡ place) × (base ≤ index) × (index < 253)
there_and_back place base total h t b = (omega arith, omega arith, omega arith)

-- The index of a configuration's name, for each speed of the device's range and each number below the count, leads
-- back to that speed and number, and lies between the functions' strings and the device's, if the range below
-- the device's strings has room for all configurations.
pub config_of_istring-config_istring :
    (c : Settings) (config_index : ℕ) (s : Speed)
    → speeds_valid c.speeds ≡ true
    → includes c.speeds s ≡ true
    → config_index < c.max_config_count
    → c.max_config_count * speeds_count c.speeds < istr_global_base
    → let index = config_istring c config_index s in
      (config_of_istring c index ≡ (s, config_index))
      × (istr_config_base c ≤ index)
      × (index < istr_global_base)
unfolding config_istring config_of_istring istr_config_base
config_of_istring-config_istring c i s v h hi fits =
    let mc = c.max_config_count in
    let o = offset c.speeds s in
    let (below, back, _, _) = speed_at-offset c.speeds s v h in
    let (rel, low, high) =
      there_and_back (i + o * mc) (istr_config_base c) (mc * speeds_count c.speeds)
        (place_in_table i o (speeds_count c.speeds) mc hi below) fits (wrapped_base _ fits) in
    let row : (i + o * mc) / mc ≡ o =
      add-mul-div_right i o (omega arith) ∙ ap (λ k. k + o) (div-eq_of_lt hi) ∙ omega arith in
    let column : (i + o * mc) % mc ≡ i = add-mul-mod_self_right i o mc ∙ mod-eq_of_lt hi in
    (
      ap (λ r. (speed_at c.speeds (r / mc), r % mc)) rel
          ∙ ap₂ (λ a b. (a, b)) (ap (speed_at c.speeds) row ∙ back) column,
      low,
      high,
    )
