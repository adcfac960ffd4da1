-- ===== src/Forms/Plan.antt =====
-- `SetSchedule` and `DeleteSchedule` on the pairs of a form.
use smart_garden.Prelude.{
  ℕ, ◌+◌, ◌-◌, ◌*◌, ◌^◌, Bool, true, false, not, ◌&&◌, ◌||◌, Option, none, some, List, [], ◌∷◌,
  if◌then◌else◌, set, replicate, ℤ, pos, pos_part, ltb_ℤ, eqb_ℤ, minus_one, int, ◌+ℤ◌, set_bit,
  clear_bit, u8_of,
}
use mathlib.Core.Option
use smart_garden.Prelude.Text.{same_text, strncpy, behind, contains}
use smart_garden.Settings.{Schedule, new_schedule, is_interval}
use smart_garden.Settings.Eeprom.{Eeprom}
use smart_garden.Settings.Blocks.{get_num_zones}
use smart_garden.Settings.Scalars.Flags.{get_num_schedules}
use smart_garden.Settings.Schedules.{store_schedule, delete_schedule}
use smart_garden.Core.State.{Config, Env, System}
use smart_garden.Core.Run.{stop_schedule}
use smart_garden.Core.Process.{process_scheduled_events}
use smart_garden.Forms.Pairs.{KvPairs, is_on, text_id, text_name, char_at, is_indexed}

-- The locals of `SetSchedule`.
pub record PlanForm : Type 0 where
  pub sched_num : ℤ
  pub sched : Schedule
  pub time_enable : List Bool

-- The constructor of `Schedule` has set the days and the times already.
unfoldable pub new_form : PlanForm
new_form = record { sched_num = minus_one; sched = new_schedule; time_enable = replicate 4 false }

-- `SetEnabled`, `SetInterval` and `SetWAdj`, by the weight of their bit.
abbrev pub set_flag : ℕ → Bool → Schedule → Schedule
set_flag w value sched = record sched {
  flags = if value then set_bit sched.flags w else clear_bit sched.flags w;
}

abbrev pub text_type : List ℕ
text_type = b't' ∷ b'y' ∷ b'p' ∷ b'e' ∷ []

abbrev pub text_enable : List ℕ
text_enable = b'e' ∷ b'n' ∷ b'a' ∷ b'b' ∷ b'l' ∷ b'e' ∷ []

abbrev pub text_wadj : List ℕ
text_wadj = b'w' ∷ b'a' ∷ b'd' ∷ b'j' ∷ []

abbrev pub text_interval : List ℕ
text_interval = b'i' ∷ b'n' ∷ b't' ∷ b'e' ∷ b'r' ∷ b'v' ∷ b'a' ∷ b'l' ∷ []

-- "PM" or "pm" anywhere in a value.
abbrev pub is_pm : List ℕ → Bool
is_pm value = contains (b'P' ∷ b'M' ∷ []) value || contains (b'p' ∷ b'm' ∷ []) value

-- The test that a time of day is refused by.
abbrev pub is_bad_time : ℤ → ℤ → Bool
is_bad_time hour minute =
    not (ltb_ℤ hour (pos 24))
    || (ltb_ℤ hour (pos 0) || (not (ltb_ℤ minute (pos 60)) || ltb_ℤ minute (pos 0)))

-- The loop over the times that are not enabled, from the first on.
unfoldable pub clear_times : List Bool → List ℤ → List ℤ
clear_times [] times = times
clear_times (b ∷ bs) [] = []
clear_times (b ∷ bs) (t ∷ ts) = (if b then t else minus_one) ∷ clear_times bs ts

-- The number and the schedule that a form asks to store.
abbrev pub finish_form : PlanForm → ℤ × Schedule
finish_form form =
    (form.sched_num, record (form.sched) { time = clear_times form.time_enable form.sched.time })

-- A schedule that is running is stopped when it is replaced.
unfoldable pub restart : Config → Env → ℤ → System → System
restart c e num s =
    if c.run_schedules && eqb_ℤ s.schedule num
    then process_scheduled_events c e (stop_schedule c e s)
    else s

-- The slot of a schedule: the first free one for the number -1.
abbrev pub slot_of : (E : Eeprom) → E.Mem → ℤ → ℤ
slot_of E m num = if eqb_ℤ num minus_one then pos (get_num_schedules E m) else num

-- The numbers are read by the C library: `atoi` and `strtol`.
module _ (atoi strtol : List ℕ → ℤ) where
  -- A value with a colon, whose rest is given, for time `i`.
  unfoldable pub set_time : ℕ → List ℕ → List ℕ → PlanForm → Option PlanForm
  set_time i value rest form =
      let hour0 = int (strtol value) in
      let hour = if is_pm value then int (hour0 +ℤ pos 12) else hour0 in
      let minute = int (strtol rest) in
      let start = int (pos (pos_part hour * 60 + pos_part minute)) in
      let sched = form.sched in
      if is_bad_time hour minute
      then none
      else some (record form { sched = record sched { time = set sched.time i start } })

  unfoldable pub set_time_of : ℕ → List ℕ → Option (List ℕ) → PlanForm → Option PlanForm
  unfolding set_time
  set_time_of i value none form = some form
  set_time_of i value (some rest) form = set_time i value rest form

  -- The body of the loop of `SetSchedule` for one pair; a bad time ends it.
  unfoldable pub set_pair : ℕ → List ℕ → List ℕ → PlanForm → Option PlanForm
  unfolding set_time_of
  set_pair num_zones key value form =
      let sched = form.sched in
      let c = char_at key 1 in
      let day =
        if is_on value
        then set_bit sched.day (2 ^ (c - b'1'))
        else clear_bit sched.day (2 ^ (c - b'1')) in
      if same_text key text_id
      then some (record form { sched_num = int (atoi value) })
      else if same_text key text_type
      then some (record form { sched = set_flag 2 (not (is_on value)) sched })
      else if same_text key text_enable
      then some (record form { sched = set_flag 1 (is_on value) sched })
      else if same_text key text_wadj
      then some (record form { sched = set_flag 4 (is_on value) sched })
      else if same_text key text_name
      then some (record form { sched = record sched { name = strncpy 20 value } })
      else if same_text key text_interval
      then some (
          if is_interval sched
          then record form { sched = record sched { day = u8_of (atoi value) } }
          else form)
      else if is_indexed b'd' b'1' b'7' key && not (is_interval sched)
      then some (record form { sched = record sched { day = day } })
      else if is_indexed b't' b'1' b'4' key
      then set_time_of (c - b'1') value (behind b':' value) form
      else if is_indexed b'e' b'1' b'4' key
      then some (record form { time_enable = set form.time_enable (c - b'1') (is_on value) })
      else if is_indexed b'z' b'b' (b'a' + num_zones) key
      then some (record form {
        sched = record sched {
          zone_duration = set sched.zone_duration (c - b'b') (u8_of (atoi value));
        };
      })
      else some form

  -- The loop.
  unfoldable pub set_pairs : ℕ → KvPairs → Option PlanForm → Option PlanForm
  unfolding set_pair
  set_pairs num_zones [] o = o
  set_pairs num_zones (p ∷ ps) none = none
  set_pairs num_zones (p ∷ ps) (some form) =
      set_pairs num_zones ps (set_pair num_zones p.0 p.1 form)

  unfoldable pub read_form : ℕ → KvPairs → Option (ℤ × Schedule)
  unfolding set_pairs clear_times new_form
  read_form num_zones kv = Option.map finish_form (set_pairs num_zones kv (some new_form))

  -- The number that `DeleteSchedule` reads: the last one, or -1.
  unfoldable pub form_id : KvPairs → ℤ → ℤ
  form_id [] id = id
  form_id (p ∷ ps) id = form_id ps (if same_text p.0 text_id then int (atoi p.1) else id)

  -- `settings` are the settings of core.cpp that the EEPROM holds.
  module _ (E : Eeprom) (settings : E.Mem → Config) (e : Env) where
    open E use {Mem}

    unfoldable pub delete_schedule_form : KvPairs → Mem → Mem × Bool
    unfolding form_id
    delete_schedule_form kv m = delete_schedule E m (form_id kv minus_one)

    unfoldable pub store_form : Option (ℤ × Schedule) → Mem → System → Mem × System × Bool
    unfolding restart
    store_form none m s = (m, s, false)
    store_form (some (num, sched)) m s =
        let (m1, stored) = store_schedule E m num sched in
        if stored then (m1, restart (settings m1) e (slot_of E m num) s, true) else (m, s, false)

    unfoldable pub set_schedule : KvPairs → Mem → System → Mem × System × Bool
    unfolding store_form
    set_schedule kv m s = store_form (read_form (get_num_zones E m) kv) m s
