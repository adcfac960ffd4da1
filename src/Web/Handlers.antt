-- ===== src/Web/Handlers.antt =====
-- What the requests for `bin/` pages of Station/web.cpp do: `ProcessWebClients` with `SetQSched` and
-- `RunSchedules`.
use smart_garden.Prelude.{
  ℕ, ◌+◌, ◌-◌, Bool, true, false, List, [], ◌∷◌, if◌then◌else◌, set, ℤ, pos, eqb_ℤ, minus_one, int,
  i8, u8_of,
}
use smart_garden.Prelude.Text.{same_text}
use smart_garden.Settings.{FullZone}
use smart_garden.Settings.Eeprom.{Eeprom}
use smart_garden.Settings.Scalars.Flags.{set_run_schedules}
use smart_garden.Settings.Scalars.Network.{IpAddress}
use smart_garden.Web.Stored.{stored_config}
use smart_garden.Core.State.{Config, Env, System}
use smart_garden.Core.Run.{stop_schedule, start_schedule}
use smart_garden.Core.Process.{process_scheduled_events}
use smart_garden.Core.Commands.{set_pause}
use smart_garden.Forms.Pairs.{KvPairs, is_on, char_at, is_indexed}
use smart_garden.Forms.Plan.{set_schedule, delete_schedule_form}
use smart_garden.Forms.Zones.{set_zones_form, set_one_zones}
use smart_garden.Forms.General.{General, set_settings}

-- The answer: a header "OK", an error page, a reset of the board behind the answer, or none.
pub data Answer : Type 0 where
  served : Answer
  refused : Answer
  resets : Answer
  silent : Answer

abbrev pub answer_of : Bool → Answer
answer_of ok = if ok then served else refused

-- The names of the pages behind "bin/".
abbrev pub text_set_sched : List ℕ
text_set_sched = b's' ∷ b'e' ∷ b't' ∷ b'S' ∷ b'c' ∷ b'h' ∷ b'e' ∷ b'd' ∷ []

abbrev pub text_set1_zone : List ℕ
text_set1_zone = b's' ∷ b'e' ∷ b't' ∷ b'1' ∷ b'Z' ∷ b'o' ∷ b'n' ∷ b'e' ∷ []

abbrev pub text_set_zones : List ℕ
text_set_zones = b's' ∷ b'e' ∷ b't' ∷ b'Z' ∷ b'o' ∷ b'n' ∷ b'e' ∷ b's' ∷ []

abbrev pub text_del_sched : List ℕ
text_del_sched = b'd' ∷ b'e' ∷ b'l' ∷ b'S' ∷ b'c' ∷ b'h' ∷ b'e' ∷ b'd' ∷ []

abbrev pub text_set_q_sched : List ℕ
text_set_q_sched = b's' ∷ b'e' ∷ b't' ∷ b'Q' ∷ b'S' ∷ b'c' ∷ b'h' ∷ b'e' ∷ b'd' ∷ []

abbrev pub text_settings : List ℕ
text_settings = b's' ∷ b'e' ∷ b't' ∷ b't' ∷ b'i' ∷ b'n' ∷ b'g' ∷ b's' ∷ []

abbrev pub text_run : List ℕ
text_run = b'r' ∷ b'u' ∷ b'n' ∷ []

abbrev pub text_factory : List ℕ
text_factory = b'f' ∷ b'a' ∷ b'c' ∷ b't' ∷ b'o' ∷ b'r' ∷ b'y' ∷ []

abbrev pub text_reset : List ℕ
text_reset = b'r' ∷ b'e' ∷ b's' ∷ b'e' ∷ b't' ∷ []

-- The keys of `SetQSched` and `RunSchedules`.
abbrev pub text_sched : List ℕ
text_sched = b's' ∷ b'c' ∷ b'h' ∷ b'e' ∷ b'd' ∷ []

abbrev pub text_system : List ℕ
text_system = b's' ∷ b'y' ∷ b's' ∷ b't' ∷ b'e' ∷ b'm' ∷ []

abbrev pub text_pause : List ℕ
text_pause = b'p' ∷ b'a' ∷ b'u' ∷ b's' ∷ b'e' ∷ []

-- A schedule that may be running is stopped, and the next one looked for.
unfoldable pub stop_and_process : Config → Env → System → System
stop_and_process c e s =
    if c.run_schedules then process_scheduled_events c e (stop_schedule c e s) else s

-- The durations and the number of `SetQSched`.
unfoldable pub quick_pairs : (List ℕ → ℤ) → ℕ → KvPairs → List ℕ × ℤ → List ℕ × ℤ
quick_pairs atoi num_zones [] r = r
quick_pairs atoi num_zones (p ∷ ps) r =
    let durations =
      if is_indexed b'z' b'b' (b'a' + num_zones) p.0
      then set r.0 (char_at p.0 1 - b'b') (u8_of (atoi p.1))
      else r.0 in
    quick_pairs atoi num_zones ps
      (durations, if same_text p.0 text_sched then int (atoi p.1) else r.1)

-- `SetQSched`; the number is converted to an int8_t.
unfoldable pub set_q_sched : (List ℕ → ℤ) → Config → Env → KvPairs → System → System
unfolding quick_pairs
set_q_sched atoi c e kv s =
    let s1 = stop_schedule c e s in
    let (durations, sched) =
      quick_pairs atoi c.num_zones kv (s1.quick_schedule.zone_duration, minus_one) in
    let s2 = record s1 {
      quick_schedule = record (s1.quick_schedule) { zone_duration = durations };
    } in
    if eqb_ℤ sched minus_one
    then start_schedule c e true (pos 100) s2
    else start_schedule c e false (i8 (u8_of sched)) s2

-- The C library's readers, `INADDR_NONE` of the network library, the EEPROM, whether the build is a
-- master, what the structure of a zone holds on the stack, and `ResetEEPROM`, which is not
-- modelled.
module _ (atoi strtol : List ℕ → ℤ) (strtoul : List ℕ → ℕ × List ℕ) (inaddr_none : IpAddress)
    (E : Eeprom) (master : Bool) (e : Env) (uninit : FullZone) (reset_eeprom : E.Mem → E.Mem) where
  open E use {Mem}

  -- The getters of settings.cpp.
  abbrev pub settings : Mem → Config
  settings = stored_config E master

  -- What a request may change: the EEPROM, the scheduler with its boards, and the flag of the time client.
  pub record Server : Type 0 where
    pub mem : Mem
    pub system : System
    pub check_time : Bool

  -- `RunSchedules`: one pair after the other.
  unfoldable pub run_schedules : KvPairs → Server → Server
  run_schedules [] v = v
  run_schedules (p ∷ ps) v = run_schedules ps (
      if same_text p.0 text_system
      then record v { mem = set_run_schedules E v.mem (is_on p.1) }
      else if same_text p.0 text_pause
      then record v { system = set_pause (settings v.mem) e (int (atoi p.1)) v.system }
      else v)

  unfoldable pub serve_sched : KvPairs → Server → Server × Answer
  serve_sched kv v =
      let (m, s, ok) = set_schedule atoi strtol E settings e kv v.mem v.system in
      (record v { mem = m; system = s }, answer_of ok)

  unfoldable pub serve_delete : KvPairs → Server → Server × Answer
  serve_delete kv v =
      let (m, ok) = delete_schedule_form atoi strtol E settings e kv v.mem in
      if ok
      then (record v { mem = m; system = stop_and_process (settings m) e v.system }, served)
      else (v, refused)

  unfoldable pub serve_settings : KvPairs → Server → Server × Answer
  serve_settings kv v =
      let g : General strtoul inaddr_none E atoi = record {
        mem = v.mem;
        boards = v.system.boards;
        check_time = v.check_time;
      } in
      let g1 = set_settings strtoul inaddr_none E atoi kv g in
      let s = record (v.system) { boards = g1.boards } in
      (
        record v {
          mem = g1.mem;
          system = stop_and_process (settings g1.mem) e s;
          check_time = g1.check_time;
        },
        served,
      )

  unfoldable pub serve_run : KvPairs → Server → Server × Answer
  unfolding run_schedules
  serve_run kv v =
      let v1 = run_schedules kv v in
      (record v1 { system = process_scheduled_events (settings v1.mem) e v1.system }, served)

  unfoldable pub serve_factory : Server → Server × Answer
  serve_factory v =
      let c = settings v.mem in
      let s = if c.run_schedules then stop_schedule c e v.system else v.system in
      (record v { mem = reset_eeprom v.mem; system = s }, served)

  -- The requests for the page `name` behind "bin/".
  unfoldable pub process_bin : List ℕ → KvPairs → Server → Server × Answer
  unfolding serve_sched serve_delete serve_settings serve_run serve_factory
  process_bin name kv v =
      let is : List ℕ → Bool = λ text. same_text name text in
      let (m1, ok) = set_one_zones E atoi uninit kv v.mem in
      if is text_set_sched
      then serve_sched kv v
      else if is text_set1_zone
      then (record v { mem = m1 }, answer_of ok)
      else if is text_set_zones
      then (record v { mem = set_zones_form E uninit kv v.mem }, served)
      else if is text_del_sched
      then serve_delete kv v
      else if is text_set_q_sched
      then (record v { system = set_q_sched atoi (settings v.mem) e kv v.system }, served)
      else if is text_settings
      then serve_settings kv v
      else if is text_run
      then serve_run kv v
      else if is text_factory
      then serve_factory v
      else if is text_reset
      then (v, resets)
      else (v, silent)
