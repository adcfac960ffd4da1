-- ===== src/Settings/Schedules.antt =====
-- The list of schedules: what `DeleteSchedule` and the end of `SetSchedule` do to the slots and to their
-- number. What comes before and after in both is in Forms/Plan.
pub mod Slots
pub mod Store
use smart_garden.Prelude.{
  ℕ, zero, suc, ◌+◌, ◌-◌, Bool, true, false, leb, ◌==◌, if◌then◌else◌, ℤ, pos, negsuc,
}
use smart_garden.Settings.Types.{Schedule, new_schedule, max_schedules}
use smart_garden.Settings.Eeprom.{Eeprom}
use smart_garden.Settings.Blocks.{load_schedule, save_schedule}
use smart_garden.Settings.Scalars.Flags.{get_num_schedules, set_num_schedules}

module _ (E : Eeprom) where
  open E use {Mem}

  -- The loop of `DeleteSchedule`, over the `n` slots from `i` on: each gets the schedule behind it. The
  -- structure `old` is filled anew in each round.
  unfoldable pub shift_schedules : Mem → ℕ → ℕ → Schedule → Mem
  shift_schedules m i zero old = m
  shift_schedules m i (suc n) old =
      let sched = load_schedule E m (i + 1) old in
      shift_schedules (save_schedule E m i sched) (i + 1) n sched

  -- `DeleteSchedule`, for the number that the pairs give.
  unfoldable pub delete_schedule : Mem → ℤ → Mem × Bool
  unfolding shift_schedules
  delete_schedule m (negsuc i) = (m, false)
  delete_schedule m (pos i) =
      let count = get_num_schedules E m in
      if leb count i then (m, false) else (
        set_num_schedules E (shift_schedules m i (count - 1 - i) new_schedule) (count - 1),
        true,
      )

  -- The end of `SetSchedule`: the schedule is appended for the number -1 and replaced for another.
  unfoldable pub store_schedule : Mem → ℤ → Schedule → Mem × Bool
  store_schedule m (pos i) sched =
      if leb (get_num_schedules E m) i then (m, false) else (save_schedule E m i sched, true)
  store_schedule m (negsuc (suc i)) sched = (m, false)
  store_schedule m (negsuc zero) sched =
      let count = get_num_schedules E m in
      if count == max_schedules
      then (m, false)
      else (save_schedule E (set_num_schedules E m (count + 1)) count sched, true)
