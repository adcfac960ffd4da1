-- ===== src/Examples/Radio.antt =====
-- A master and a remote station with 8 zones, which is station 2, on the radio.
use smart_garden.Prelude.{
  ℕ, ◌+◌, ◌<◌, ◌≡◌, refl, inl, inr, true, false, List, [], ◌∷◌, ◌++◌, arith, if◌then◌else◌, get_or,
  replicate, All-replicate, pos,
}
use smart_garden.Settings.{ShortStation}
use smart_garden.Core.State.{Config, System, new_system, zone_state_running, zone_state_off}
use smart_garden.Core.Phase.{IsFitting, IsIdle, new_system-IsPhase}
use smart_garden.Core.Zones.Cells.{IsCell}
use smart_garden.Core.Switch.Stopped.{IsOff}
use smart_garden.Core.Switch.{turn_off_zones_worker}
use smart_garden.Core.Commands.Single.{RunsOnly}
use smart_garden.Protocol.Wire.{
  header_bytes, header_of, report_all, fcode_evtmaster_report, word_bytes, my_station,
  fcode_response_error, fcode_zones_set,
}
use smart_garden.Protocol.Node.{Node, Sensors, Reception, packet}
use smart_garden.Protocol.Send.{make_header, send_zones_report}
use smart_garden.Protocol.Request.{channel_on, channel_off, all_channels_off, subscribe_events}
use smart_garden.Protocol.Receive.{process_new_frame, note_sender, note_contact}
use smart_garden.Protocol.Keep.{Healthy}
use smart_garden.Protocol.Keep.Frames.{process_new_frame-Healthy}
use smart_garden.Protocol.Reject.{process_new_frame-rejected}
use smart_garden.Protocol.Log.{IsLogged, log_error}
use smart_garden.Protocol.Link.{newest_frame}
use smart_garden.Protocol.Link.Status.{is_channel_on}
use smart_garden.Protocol.Link.Command.{IsControlled, channel_on-delivered}
use smart_garden.Protocol.Link.Off.{channel_off-delivered, all_channels_off-refused}
use smart_garden.Protocol.Link.Report.{zones_report-delivered}
use smart_garden.Protocol.Link.Subscribe.{subscribe_events-delivered}
use smart_garden.Examples.Garden.{garden, house, clock}

abbrev far_house : ShortStation
far_house = record house { station_flags = 3; network_id = 11 }

abbrev own_house : ShortStation
own_house = record house { station_flags = 15 }

abbrev master_config : Config
master_config = record garden { load_short_station = λ i old. far_house }

abbrev remote_config : Config
remote_config = record garden {
  master = false;
  load_short_station = λ i old. own_house;
  my_station_id = 2;
}

abbrev no_sensors : Sensors
no_sensors = record {
  list = [];
  lcd_temp_index = 255;
  lcd_humid_index = 255;
  temperature = pos 0;
  humidity = pos 0;
}

abbrev node : Config → System → Node
node c s = record {
  config = c;
  num_sensors = 0;
  system = s;
  sensors = no_sensors;
  last_received_station_id = 0;
  next_broadcast_time = 0;
  effects = [];
}

abbrev master_node : Node
master_node = node master_config new_system

abbrev remote_node : Node
remote_node = node remote_config new_system

-- A remote station with zone 1 running.
abbrev busy_node : Node
busy_node =
    node remote_config
      (record new_system { zones = 0 ∷ zone_state_running ∷ replicate 62 zone_state_off })

abbrev near : Reception
near = record {
  rssi = pos 40;
  has_address = true;
  beyond = λ i. 0;
  error_text = b'b' ∷ b'a' ∷ b'd' ∷ [];
  uninit = 0;
}

abbrev remote-IsFitting : IsFitting 8 remote_config
remote-IsFitting = record { zones = refl; zones_fit = omega arith; schedules_fit = omega arith }

abbrev remote-Healthy : Healthy 8 remote_node
unfolding new_system
remote-Healthy = record {
  fit = remote-IsFitting;
  sensors_fit = omega arith;
  phase = new_system-IsPhase 8;
  cells = All-replicate IsCell 64 0 (inl refl);
  sound = tt;
}

-- A ping with the cookie 1, 2, 3, 4.
abbrev ping_frame : List ℕ
ping_frame = 1 ∷ 7 ∷ 2 ∷ 0 ∷ 4 ∷ 52 ∷ 1 ∷ 2 ∷ 3 ∷ 4 ∷ []

-- A ping with a cookie of two bytes.
abbrev short_ping_frame : List ℕ
short_ping_frame = 1 ∷ 7 ∷ 2 ∷ 0 ∷ 2 ∷ 52 ∷ 1 ∷ 2 ∷ []

process_new_frame-Healthy_example :
    Healthy 8 (process_new_frame (clock 2000) near ping_frame remote_node)
process_new_frame-Healthy_example =
    process_new_frame-Healthy 8 (clock 2000) near ping_frame remote_node remote-Healthy

process_new_frame-rejected_example :
    (process_new_frame (clock 2000) near short_ping_frame remote_node
      ≡ note_sender (clock 2000) near 0 remote_node)
    × IsLogged (clock 2000) near remote_node (log_error (clock 2000) near remote_node)
    × ((note_sender (clock 2000) near 0 remote_node).config ≡ remote_node.config)
    × ((note_sender (clock 2000) near 0 remote_node).sensors ≡ remote_node.sensors)
    × ((note_sender (clock 2000) near 0 remote_node).system
        ≡ note_contact (clock 2000) near 0 remote_node.system)
unfolding header_of
process_new_frame-rejected_example =
    process_new_frame-rejected (clock 2000) near short_ping_frame remote_node refl

abbrev remote-IsControlled : (chan : ℕ) → chan < 8 → IsControlled (clock 2000) 2 chan remote_config
remote-IsControlled chan h = record {
  in_range = omega arith;
  enabled = refl;
  valid = refl;
  rcontrol = refl;
  channel = h;
}

channel_on-delivered_example :
    let (m1, sent) = channel_on (clock 1000) 2 3 15 master_node in
    (sent ≡ true)
    × (m1.effects ≡ (packet 2 (newest_frame m1) ∷ []))
    × RunsOnly remote_config
        (clock 2000)
        8
        remote-IsFitting
        3
        16
        (process_new_frame (clock 2000) near (newest_frame m1) remote_node).system
unfolding new_system
channel_on-delivered_example =
    channel_on-delivered (clock 1000) (clock 2000) near master_node remote_node 8 2 3 15 refl
      remote-IsFitting (remote-IsControlled 3 (omega arith)) refl (omega arith) (omega arith)
      (omega arith) (omega arith) (omega arith) (omega arith)

channel_off-delivered_example :
    let (m1, sent) = channel_off (clock 1000) 2 3 master_node in
    let t = (process_new_frame (clock 2000) near (newest_frame m1) busy_node).system in
    (sent ≡ true)
    × (t
        ≡ turn_off_zones_worker remote_config
            (clock 2000)
            (note_contact (clock 2000) near my_station busy_node.system))
    × IsIdle t
    × IsOff 3 t
channel_off-delivered_example =
    channel_off-delivered (clock 1000) (clock 2000) near master_node busy_node 2 3 3 refl
      (remote-IsControlled 3 (omega arith)) (omega arith) (omega arith)
      (record { enabled = refl; station = omega arith; station_enabled = refl; local = inl refl })

all_channels_off-refused_example :
    let (m1, sent) = all_channels_off (clock 1000) 2 master_node in
    let t = process_new_frame (clock 2000) near (newest_frame m1) busy_node in
    (sent ≡ true)
    × (t.system ≡ note_contact (clock 2000) near my_station busy_node.system)
    × (newest_frame t
        ≡ header_bytes (make_header fcode_response_error 0 2 my_station 2)
          ++ (fcode_zones_set ∷ 2 ∷ []))
all_channels_off-refused_example =
    all_channels_off-refused (clock 1000) (clock 2000) near master_node busy_node 2 refl
      (omega arith)

zones_report-delivered_example :
    let (n1, sent) = send_zones_report (clock 1000) 7 2 my_station 0 8 busy_node in
    let zones = (process_new_frame (clock 2000) near (newest_frame n1) master_node).system.zones in
    (sent ≡ true)
    × (get_or zones 1 0 ≡ (
        if is_channel_on remote_config busy_node.system 0 1
        then zone_state_running
        else zone_state_off))
    × (get_or zones 9 0 ≡ get_or master_node.system.zones 9 0)
unfolding new_system
zones_report-delivered_example =
    zones_report-delivered (clock 1000) (clock 2000) near busy_node master_node 7 2 0 8 1 9
      (omega arith) refl (omega arith) (omega arith) (omega arith) refl refl (omega arith)
      (omega arith) (omega arith) (inr (omega arith))

subscribe_events-delivered_example :
    let (m1, sent) = subscribe_events (clock 1000) 2 master_node in
    let n1 = process_new_frame (clock 2000) near (newest_frame m1) remote_node in
    (sent ≡ true)
    × (n1.config.evt_master_station_id ≡ my_station)
    × (n1.config.evt_master_flags ≡ report_all + 1)
    × (n1.system ≡ (note_sender (clock 2000) near my_station remote_node).system)
    × (newest_frame n1
        ≡ header_bytes (make_header fcode_evtmaster_report 0 2 my_station 5)
          ++ (word_bytes (report_all + 1) ++ (my_station ∷ word_bytes 0)))
subscribe_events-delivered_example =
    subscribe_events-delivered (clock 1000) (clock 2000) near master_node remote_node 2
      (omega arith) refl refl
