-- ===== src/Protocol/Keep/Sensing.antt =====
-- The handlers of sensor readings keep a station healthy.
use smart_garden.Prelude.{
  if_both, ℕ, zero, suc, ◌+◌, ◌*◌, not, ◌&&◌, Option, none, some, List, ltb, ◌==◌, get_or, ℤ, eqb_ℤ,
  u8, bit, i16,
}
use smart_garden.Core.State.{Env}
use smart_garden.Protocol.Wire.{header_of, range_of, max_remote_stations, word}
use smart_garden.Protocol.Node.{Node, Sensor, Sensors}
use smart_garden.Protocol.Send.{no_sensor}
use smart_garden.Protocol.Report.{
  report_change, store_reading, store_found, find_sensor, report_sensor_reading, report_readings,
  message_sensors_report, sensor_type_waterflow,
}
use smart_garden.Protocol.Keep.{Healthy, emit-Healthy, send_sensors_report-Healthy}

module _ (k : ℕ) where
  report_change-Healthy :
      (i : ℕ) (old : Sensor) (reading : ℤ) (n : Node)
      → Healthy k n
      → Healthy k (report_change i old reading n)
  unfolding report_change
  report_change-Healthy i old reading n h =
      if_both (Healthy k)
        (old.config.sensor_type == sensor_type_waterflow && not (eqb_ℤ reading old.last_reading)) _
        _
        (if_both (Healthy k) (bit n.config.evt_master_flags 3) _ _
          (send_sensors_report-Healthy k 0 n.config.my_station_id n.config.evt_master_station_id i 1
            n h)
          h)
        h

  sensors-Healthy : (n : Node) (ss : Sensors) → Healthy k n → Healthy k (record n { sensors = ss })
  sensors-Healthy n ss h = record {
    fit = h.fit;
    sensors_fit = h.sensors_fit;
    phase = h.phase;
    cells = h.cells;
    sound = h.sound;
  }

  module _ (e : Env) where
    store_reading-Healthy :
        (i : ℕ) (reading : ℤ) (n : Node) → Healthy k n → Healthy k (store_reading e i reading n)
    unfolding store_reading
    store_reading-Healthy i reading n h = emit-Healthy k _ _ tt (
        report_change-Healthy i (get_or n.sensors.list i no_sensor) reading _
          (sensors-Healthy n _ h))

    store_found-Healthy :
        (o : Option ℕ) (reading : ℤ) (n : Node)
        → Healthy k n
        → Healthy k (store_found e o reading n)
    unfolding store_found
    store_found-Healthy none reading n h = h
    store_found-Healthy (some i) reading n h = store_reading-Healthy i reading n h

    report_readings-Healthy :
        (f : List ℕ) (station first i j : ℕ) (n : Node)
        → Healthy k n
        → Healthy k (report_readings e f station first i j n)
    unfolding report_readings report_sensor_reading
    report_readings-Healthy f station first i zero n h = h
    report_readings-Healthy f station first i (suc j) n h =
        report_readings-Healthy f station first (i + 1) j _ (
          store_found-Healthy (find_sensor station (u8 (first + i)) n.sensors.list 0 n.num_sensors)
            (i16 (word f (8 + 2 * i))) n h)

    pub message_sensors_report-Healthy :
        (f : List ℕ) (n : Node) → Healthy k n → Healthy k (message_sensors_report e f n)
    unfolding message_sensors_report
    message_sensors_report-Healthy f n h =
        let m = header_of f in
        let g = range_of f in
        if_both (Healthy k) (not (m.payload_length == 2 + g.num * 2)) _ _ h (
          if_both (Healthy k) (ltb max_remote_stations m.from_unit_id) _ _ h
            (report_readings-Healthy f m.from_unit_id g.first 0 g.num n h))
