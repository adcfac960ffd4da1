-- ===== src/MainLoop.antt =====
-- Station/core.cpp, `mainLoop`: which work is done at which tenth of a second. The calls that lead out of
-- this model (network servers, sensors, menus) are a trace; those of the core act on its state, and so do
-- the clients of the web server.
pub mod Rhythm
use smart_garden.Prelude.{
  ap₂, if_both, ℕ, zero, suc, ◌+◌, ◌-◌, ◌*◌, ◌/◌, ◌%◌, ◌^◌, ◌≤◌, ◌<◌, min, ◌≡◌, refl, sym, ap, ◌∙◌,
  subst, ◌≢◌, ◌↔◌, ◌⊎◌, inl, inr, Bool, true, false, not, ◌&&◌, ◌||◌, Option, none, some, List, [],
  ◌∷◌, ◌++◌, map, arith, dec_lt, ℕ_discrete, ltb, leb, ◌==◌, if◌then◌else◌, ltb→lt, lt→ltb, leb→le,
  ==_iff, Bool-cases, Option-cases, length, get_or, set, replicate, take, drop, length-append,
  length-set, length-replicate, get_or-set, get_or-set_ne, All, All-set, All-get_or, All-replicate,
  ℤ, pos, negsuc, pos_part, neg_part, sub_ℕ, ◌≤ℤ◌, ltb_ℤ, eqb_ℤ, minus_one, minus_two, u8, u16, u32,
  sub32, bit, set_bit, clear_bit, i8, i16, u8_of, u16_of, sub32_elapsed, every_below,
  every_below_sound,
}
use smart_garden.LocalBoard.Parallel
use smart_garden.LocalBoard.Serial
use smart_garden.Core.State.{Config, Env, System}
use smart_garden.Core.Zones.{zone_handler_loop}
use smart_garden.Core.Process.{process_scheduled_events}

-- The calls to the modules that are not modelled.
pub data Call : Type 0 where
  sensors_begin sdlog_begin ui_home : Call
  web_init tftp_init check_time send_time sensors_loop web_clients tftp_poll : Call

-- `HW_ENABLE_ETHERNET` of the build, and the answers of `Init` and `GetNetworkStatus`. `ARDUINO` is
-- defined, and `SG_STATION_MASTER` is `master` of the settings.
pub record Build : Type 0 where
  pub ethernet : Bool
  pub web_ready : Bool
  pub network_ready : Bool

-- The statics of `mainLoop`, the state of the core, the calls so far, newest first, and whether the
-- program has left by `exit`.
pub record Station : Type 0 where
  pub first_loop : Bool
  pub done_midnight_reset : Bool
  pub old_millis : ℕ
  pub tick_counter : ℕ
  pub core : System
  pub calls : List Call
  pub exited : Bool

abbrev pub call : Call → Station → Station
call x s = record s { calls = x ∷ s.calls }

-- `clients` is what `ProcessWebClients` makes of the settings and of the scheduler; Web/Handlers models the
-- requests that change them.
module _ (w : Build) (clients : Config → System → Config × System) (c : Config) (e : Env) where
  abbrev pub ethernet_call : Call → Station → Station
  ethernet_call x s = if w.ethernet then call x s else s

  -- The block under `firstLoop`. When the web server fails to start, the program ends in it.
  unfoldable pub start_up : Station → Station
  start_up s =
      let boards = Serial.begin c.board (Parallel.begin c.board s.core.boards) in
      let s1 =
        call sensors_begin
          (record s { first_loop = false; core = record (s.core) { boards = boards } }) in
      let s2 = ethernet_call web_init s1 in
      if w.ethernet && not w.web_ready
      then record s2 { exited = true }
      else call ui_home (call sdlog_begin (ethernet_call check_time (ethernet_call tftp_init s2)))

  -- The one-second blocks, by the tenth of the second.
  unfoldable pub tick_block : ℕ → Station → Station
  tick_block t s =
      if t == 0
      then record (ethernet_call check_time s) {
        done_midnight_reset =
            if e.hour e.now == 0 && not s.done_midnight_reset
            then true
            else if not (e.hour e.now == 0)
            then false
            else s.done_midnight_reset;
      }
      else if t == 3
      then (if c.master && w.network_ready then call send_time s else s)
      else if t == 4
      then call sensors_loop s
      else if t == 5
      then record s { core = zone_handler_loop c s.core }
      else if t == 7
      then record s { core = record (s.core) { boards = (Serial.refresh c.board s.core.boards).0 } }
      else s

  -- The block that runs every 100 milliseconds.
  unfoldable pub tenth : Station → Station
  unfolding tick_block
  tenth s =
      let t = if leb 10 (u8 (s.tick_counter + 1)) then 0 else u8 (s.tick_counter + 1) in
      if leb 100 (sub32 e.millis s.old_millis)
      then tick_block (t % 10) (record s { old_millis = e.millis; tick_counter = t })
      else s

  -- The settings and the scheduler behind the call of the web server.
  abbrev pub served : System → Config × System
  served core = if w.ethernet then clients c core else (c, core)

  -- The poll at the end of each round, between those of the network servers: the web server's clients may
  -- have changed the settings, and have stopped, started or paused schedules before.
  unfoldable pub poll_all : Station → Station
  poll_all s =
      let (c1, core) = served s.core in
      let s1 = ethernet_call web_clients s in
      ethernet_call tftp_poll (record s1 { core = process_scheduled_events c1 e core })

  unfoldable pub main_loop : Station → Station
  unfolding start_up tenth poll_all
  main_loop s =
      let s1 = if s.first_loop then start_up s else s in
      if s1.exited then s1 else poll_all (tenth s1)
