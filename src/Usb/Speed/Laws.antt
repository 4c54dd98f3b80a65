-- ===== src/Usb/Speed/Laws.antt =====
-- A range of speeds, its offsets and its iteration.
use c2usb.Base.{◌<◌, ◌≡◌, refl, true, arith, length, some, get_elem?}
use c2usb.Usb.Speed.{
  Speed, no_speed, low, full, high, Speeds, speeds_valid, includes, speeds_count, offset, speed_at,
  speeds_list,
}

abbrev speeds : Speed → Speed → Speeds
speeds lo hi = record { min_speed = lo; max_speed = hi }

abbrev OffsetLaws : Speed → Speed → Speed → Type 0
OffsetLaws lo hi s =
    let ss = speeds lo hi in
    (offset ss s < speeds_count ss)
    × (speed_at ss (offset ss s) ≡ s)
    × (get_elem? (speeds_list ss) (offset ss s) ≡ some s)
    × (length (speeds_list ss) ≡ speeds_count ss)

offset_laws :
    (lo hi s : Speed)
    → speeds_valid (speeds lo hi) ≡ true
    → includes (speeds lo hi) s ≡ true
    → OffsetLaws lo hi s
unfolding speeds_valid includes speeds_count offset speed_at speeds_list
offset_laws low low low v i = (omega arith, refl, refl, refl)
offset_laws low full low v i = (omega arith, refl, refl, refl)
offset_laws low full full v i = (omega arith, refl, refl, refl)
offset_laws low high low v i = (omega arith, refl, refl, refl)
offset_laws low high full v i = (omega arith, refl, refl, refl)
offset_laws low high high v i = (omega arith, refl, refl, refl)
offset_laws full full full v i = (omega arith, refl, refl, refl)
offset_laws full high full v i = (omega arith, refl, refl, refl)
offset_laws full high high v i = (omega arith, refl, refl, refl)
offset_laws high high high v i = (omega arith, refl, refl, refl)
offset_laws no_speed hi s v i = grind arith
offset_laws _ _ _ v i = cc

-- For a speed that a valid range includes, the offset is below the count, leads back to the speed by
-- `at`, and is the speed's place in the iteration; the iteration makes `count` rounds.
pub speed_at-offset :
    (ss : Speeds) (s : Speed)
    → speeds_valid ss ≡ true
    → includes ss s ≡ true
    → (offset ss s < speeds_count ss)
      × (speed_at ss (offset ss s) ≡ s)
      × (get_elem? (speeds_list ss) (offset ss s) ≡ some s)
      × (length (speeds_list ss) ≡ speeds_count ss)
speed_at-offset ss s v i = offset_laws ss.min_speed ss.max_speed s v i
