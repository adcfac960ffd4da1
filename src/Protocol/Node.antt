-- ===== src/Protocol/Node.antt =====
-- A station on the radio network: its settings, the state of core.cpp and of sensors.cpp that the
-- protocol reads and writes, and what it has done to the outside.
use smart_garden.Prelude.{ℕ, Bool, List, ◌∷◌, ℤ}
use smart_garden.Settings.{ShortSensor}
use smart_garden.Core.State.{System, Config}

-- `SensorStruct`.
pub record Sensor : Type 0 where
  pub config : ShortSensor
  pub last_reading : ℤ
  pub last_reading_timestamp : ℕ

-- The fields of `Sensors` that hold readings: `SensorsList`, and what the display shows.
pub record Sensors : Type 0 where
  pub list : List Sensor
  pub lcd_temp_index : ℕ
  pub lcd_humid_index : ℕ
  pub temperature : ℤ
  pub humidity : ℤ

-- A frame handed to the radio drivers, the clock set from a broadcast (`setTime` and the time of the
-- last update), the address of a sender reported to ARP, a remote event and a reading logged.
pub data Effect : Type 0 where
  packet : (station : ℕ) (bytes : List ℕ) → Effect
  time_set : ℕ → Effect
  address_seen : (station : ℕ) → Effect
  event_logged : (station event_type : ℕ) (text : List ℕ) → Effect
  reading_logged : (sensor_type index : ℕ) (reading : ℤ) → Effect

-- What the radio gives with a frame: the signal strength, whether an address came with it and an ARP
-- callback is registered, and the bytes in memory behind the frame. `error_text` is the formatted error
-- message that the program logs for the frame, empty when it logs none or the log is not ready, and
-- `uninit` a byte of the stack.
pub record Reception : Type 0 where
  pub rssi : ℤ
  pub has_address : Bool
  pub beyond : ℕ → ℕ
  pub error_text : List ℕ
  pub uninit : ℕ

-- The settings are those of `Config` and the number of sensors; the effects are newest first.
pub record Node : Type 0 where
  pub config : Config
  pub num_sensors : ℕ
  pub system : System
  pub sensors : Sensors
  pub last_received_station_id : ℕ
  pub next_broadcast_time : ℕ
  pub effects : List Effect

-- An effect is added to the trace.
abbrev pub emit : Effect → Node → Node
emit x n = record n { effects = x ∷ n.effects }
