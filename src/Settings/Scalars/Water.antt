-- ===== src/Settings/Scalars/Water.antt =====
-- The water counters: one 16-bit counter for each day of the week, in 1/100 gallon, with the day of its
-- last update, and a 32-bit lifetime counter in gallons.
pub mod Rollover
use smart_garden.Prelude.{ℕ, ◌+◌, ◌*◌, ◌/◌, Bool, ◌&&◌, ltb, ◌==◌, if◌then◌else◌, u8, u32}
use smart_garden.Settings.Eeprom.{Eeprom}
use smart_garden.Settings.Scalars.Words.{
  set_eeprom_2bytes, get_eeprom_2bytes, set_eeprom_4bytes, get_eeprom_4bytes,
}

-- The time library's functions that the counters use.
pub record Calendar : Type 0 where
  pub now : ℕ
  pub weekday : ℕ → ℕ
  pub day : ℕ → ℕ
  pub month : ℕ → ℕ
  pub year : ℕ → ℕ

module _ (E : Eeprom) where
  open E use {Mem}

  unfoldable pub set_ww_counter : Mem → ℕ → ℕ → Mem
  set_ww_counter m id value = if ltb 6 id then m else set_eeprom_2bytes E m (642 + id * 2) value

  unfoldable pub internal_get_ww_counter : Mem → ℕ → ℕ
  internal_get_ww_counter m id = get_eeprom_2bytes E m (642 + id * 2)

  unfoldable pub set_total_wcounter : Mem → ℕ → Mem
  set_total_wcounter m val = set_eeprom_4bytes E m 657 val

  unfoldable pub get_total_wcounter : Mem → ℕ
  get_total_wcounter m = get_eeprom_4bytes E m 657

  unfoldable pub get_wcounter_date : Mem → ℕ → ℕ
  get_wcounter_date m id = get_eeprom_4bytes E m (661 + id * 4)

  unfoldable pub set_wcounter_date : Mem → ℕ → ℕ → Mem
  set_wcounter_date m id val = set_eeprom_4bytes E m (661 + id * 4) val

  module _ (k : Calendar) where
    unfoldable pub is_same_day : ℕ → Bool
    is_same_day last =
        k.day k.now == k.day last && k.month k.now == k.month last && k.year k.now == k.year last

    -- The counter of today's weekday, if it is of an earlier day, goes into the lifetime counter.
    unfoldable pub check_ww_counter : Mem → Mem
    unfolding is_same_day
    check_ww_counter m =
        let dow = u8 (k.weekday k.now + 255) in
        let total = u32 (get_total_wcounter m + internal_get_ww_counter m dow / 100) in
        if is_same_day (get_wcounter_date m dow)
        then m
        else set_ww_counter (set_wcounter_date (set_total_wcounter m total) dow k.now) dow 0

    unfoldable pub get_ww_counter : Mem → ℕ → Mem × ℕ
    get_ww_counter m id =
        let m1 = check_ww_counter m in
        if ltb 6 id then (m, 0) else (m1, internal_get_ww_counter m1 id)
