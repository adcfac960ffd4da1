-- ===== src/Examples/WebForm.antt =====
-- A form that asks for a schedule at 6:30 in the evening.
use smart_garden.Prelude.{
  ℕ, ◌-◌, ◌⊎◌, List, [], ◌∷◌, ℤ, pos, ◌≡◌, refl, inl, false, true, some, arith, replicate, drop,
  All-replicate, pos_part,
}
use smart_garden.Core.State.{new_system}
use smart_garden.Forms.Pairs.{KvPairs}
use smart_garden.Forms.Plan.{set_schedule}
use smart_garden.Forms.Times.{IsRefused, IsStored, set_schedule-HasTimes}
use smart_garden.Settings.{FullZone}
use smart_garden.Settings.Scalars.Network.{IpAddress}
use smart_garden.Core.Phase.{new_system-IsPhase}
use smart_garden.Core.Zones.Cells.{IsCell}
use smart_garden.Web.Request.{parse_http_header}
use smart_garden.Web.Request.Encode.{request_text}
use smart_garden.Web.Request.Whole.{IsPair, parse_http_header-request}
use smart_garden.Web.Handlers.{Server, process_bin, serve_run, run_schedules, text_system}
use smart_garden.Web.Keep.Scheduler.{IsSafe}
use smart_garden.Web.Keep.{process_bin-IsSafe}
use smart_garden.Examples.Garden.{garden, clock}
use smart_garden.Settings.Eeprom.Bytes.{image, image_write}
use smart_garden.Prelude.Text.{same_text}
use smart_garden.Settings.Blocks.{get_num_zones}
use smart_garden.Settings.Scalars.Flags.{get_num_schedules, set_run_schedules}

-- The value of a text that starts with a digit.
abbrev digit : List ℕ → ℤ
digit [] = pos 0
digit (c ∷ rest) = pos (c - b'0')

-- Every byte is 2: two zones and two schedules.
abbrev twos : ℕ → ℕ
twos = λ a. 2

abbrev evening : KvPairs
evening =
    (b't' ∷ b'1' ∷ [], b'6' ∷ b':' ∷ b'3' ∷ b'0' ∷ b'P' ∷ b'M' ∷ [])
    ∷ (b'e' ∷ b'1' ∷ [], b'o' ∷ b'n' ∷ [])
    ∷ []

set_schedule-HasTimes_example :
    let r = set_schedule digit digit image (λ m. garden) (clock 1000) evening twos new_system in
    IsRefused twos new_system r ⊎ IsStored image twos r
set_schedule-HasTimes_example =
    set_schedule-HasTimes digit digit image (λ m. garden) (clock 1000) evening twos new_system

-- The page "run", and the pairs with a blank that is encoded in the second value.
abbrev run_page : List ℕ
run_page = b'r' ∷ b'u' ∷ b'n' ∷ []

abbrev pause_pair : List ℕ × List ℕ
pause_pair = (b'p' ∷ [], b'5' ∷ [])

abbrev name_pair : List ℕ × List ℕ
name_pair = (b'n' ∷ [], b'a' ∷ b' ' ∷ [])

abbrev pause-IsPair : IsPair pause_pair
pause-IsPair = record {
  key = ((refl, refl, refl), tt);
  key_fits = omega arith;
  value = ((omega arith, refl), tt);
  value_fits = omega arith;
}

abbrev name-IsPair : IsPair name_pair
name-IsPair = record {
  key = ((refl, refl, refl), tt);
  key_fits = omega arith;
  value = ((omega arith, refl), ((omega arith, refl), tt));
  value_fits = omega arith;
}

parse_http_header-request_example :
    parse_http_header (request_text run_page pause_pair (name_pair ∷ []))
    ≡ some (run_page, pause_pair ∷ name_pair ∷ [])
parse_http_header-request_example =
    parse_http_header-request run_page pause_pair (name_pair ∷ [])
      ((refl, refl), ((refl, refl), ((refl, refl), tt))) (omega arith) pause-IsPair
      (name-IsPair, tt) (omega arith)

abbrev nowhere : IpAddress
nowhere = record { b0 = 0; b1 = 0; b2 = 0; b3 = 0 }

abbrev blank_zone : FullZone
blank_zone = record {
  enabled = false;
  station_id = 0;
  channel = 0;
  water_flow_rate = 0;
  name = replicate 20 0;
}

abbrev read_digit : List ℕ → ℕ × List ℕ
read_digit text = (pos_part (digit text), drop 1 text)

-- Schedules are switched on.
abbrev on_pair : List ℕ × List ℕ
on_pair = (text_system, b'o' ∷ b'n' ∷ [])

abbrev idle_server :
    Server digit digit read_digit nowhere image true (clock 1000) blank_zone (λ m. m)
idle_server = record { mem = twos; system = new_system; check_time = false }

process_bin-IsSafe_example :
    IsSafe 2
      (process_bin digit digit read_digit nowhere image true
        (clock 1000)
        blank_zone
        (λ m. m)
        run_page
        (on_pair ∷ [])
        idle_server).0.system
unfolding new_system process_bin serve_run run_schedules set_run_schedules get_num_zones
    get_num_schedules image_write same_text
process_bin-IsSafe_example =
    process_bin-IsSafe digit digit read_digit nowhere image true (clock 1000) blank_zone (λ m. m) 2
      run_page (on_pair ∷ []) idle_server (refl, omega arith, omega arith)
      (new_system-IsPhase 2, All-replicate IsCell 64 0 (inl refl)) (refl, omega arith, omega arith)
