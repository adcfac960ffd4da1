-- ===== src/Protocol/Wire.antt =====
-- Station/SGRProtocol.h: the messages as the bytes of their structures. The AVR has no padding, and
-- its words are little-endian.
use smart_garden.Prelude.{ℕ, ◌+◌, ◌*◌, ◌/◌, ◌%◌, List, [], ◌∷◌, ◌++◌, get_or}

abbrev pub rprotocol_id : ℕ
rprotocol_id = 1

abbrev pub fcode_zones_read : ℕ
fcode_zones_read = 1

abbrev pub fcode_zones_set : ℕ
fcode_zones_set = 2

abbrev pub fcode_zones_report : ℕ
fcode_zones_report = 3

abbrev pub fcode_sensors_read : ℕ
fcode_sensors_read = 4

abbrev pub fcode_sensors_report : ℕ
fcode_sensors_report = 5

abbrev pub fcode_evtmaster_read : ℕ
fcode_evtmaster_read = 12

abbrev pub fcode_evtmaster_set : ℕ
fcode_evtmaster_set = 13

abbrev pub fcode_evtmaster_report : ℕ
fcode_evtmaster_report = 14

abbrev pub fcode_sysevt_report : ℕ
fcode_sysevt_report = 16

abbrev pub fcode_ping : ℕ
fcode_ping = 52

abbrev pub fcode_ping_reply : ℕ
fcode_ping_reply = 53

abbrev pub fcode_time_broadcast : ℕ
fcode_time_broadcast = 55

abbrev pub fcode_response_ok : ℕ
fcode_response_ok = 127

abbrev pub fcode_response_error : ℕ
fcode_response_error = 128

-- `RMESSAGE_FLAGS_ACK_ERROR | RMESSAGE_FLAGS_ACK_REPORT`.
abbrev pub ack_std : ℕ
ack_std = 5

-- `EVTMASTER_FLAGS_REPORT_ALL`: zones, sensors, watering and system.
abbrev pub report_all : ℕ
report_all = 60

abbrev pub max_remote_stations : ℕ
max_remote_stations = 9

abbrev pub my_station : ℕ
my_station = 0

abbrev pub stationid_broadcast : ℕ
stationid_broadcast = 255

abbrev pub sysevent_max_string_length : ℕ
sysevent_max_string_length = 40

-- `RMESSAGE_HEADER`.
pub record Header : Type 0 where
  pub protocol_id : ℕ
  pub transaction_id : ℕ
  pub to_unit_id : ℕ
  pub from_unit_id : ℕ
  pub payload_length : ℕ
  pub fcode : ℕ

unfoldable pub header_bytes : Header → List ℕ
header_bytes h =
    h.protocol_id ∷ h.transaction_id ∷ h.to_unit_id ∷ h.from_unit_id ∷ h.payload_length ∷ h.fcode
    ∷ []

-- The byte of a frame at an offset; the handlers check lengths before they read.
abbrev pub byte : List ℕ → ℕ → ℕ
byte f i = get_or f i 0

abbrev pub word : List ℕ → ℕ → ℕ
word f i = byte f i + byte f (i + 1) * 256

abbrev pub long : List ℕ → ℕ → ℕ
long f i = word f i + word f (i + 2) * 65536

abbrev pub word_bytes : ℕ → List ℕ
word_bytes n = n % 256 ∷ n / 256 % 256 ∷ []

abbrev pub long_bytes : ℕ → List ℕ
long_bytes n = n % 256 ∷ n / 256 % 256 ∷ n / 65536 % 256 ∷ n / 16777216 % 256 ∷ []

unfoldable pub header_of : List ℕ → Header
header_of f = record {
  protocol_id = byte f 0;
  transaction_id = byte f 1;
  to_unit_id = byte f 2;
  from_unit_id = byte f 3;
  payload_length = byte f 4;
  fcode = byte f 5;
}

-- `RMESSAGE_ZONES_READ` and `RMESSAGE_SENSORS_READ` behind the header.
pub record Range : Type 0 where
  pub first : ℕ
  pub num : ℕ

unfoldable pub range_of : List ℕ → Range
range_of f = record { first = byte f 6; num = byte f 7 }

-- `RMESSAGE_ZONES_SET` behind the header.
pub record ZonesSet : Type 0 where
  pub flags : ℕ
  pub schedule_id : ℕ
  pub first_zone : ℕ
  pub ttr : ℕ
  pub num_zones : ℕ
  pub zones_data : ℕ

unfoldable pub zones_set_bytes : ZonesSet → List ℕ
zones_set_bytes m = m.flags ∷ m.schedule_id ∷ m.first_zone ∷ m.ttr ∷ m.num_zones ∷ m.zones_data ∷ []

unfoldable pub zones_set_of : List ℕ → ZonesSet
zones_set_of f = record {
  flags = byte f 6;
  schedule_id = byte f 7;
  first_zone = byte f 8;
  ttr = byte f 9;
  num_zones = byte f 10;
  zones_data = byte f 11;
}

-- `RMESSAGE_ZONES_REPORT` behind the header.
pub record ZonesReport : Type 0 where
  pub station_flags : ℕ
  pub first_zone : ℕ
  pub num_zones : ℕ
  pub zones_data : ℕ

unfoldable pub zones_report_bytes : ZonesReport → List ℕ
zones_report_bytes m = m.station_flags ∷ m.first_zone ∷ m.num_zones ∷ m.zones_data ∷ []

unfoldable pub zones_report_of : List ℕ → ZonesReport
zones_report_of f = record {
  station_flags = byte f 6;
  first_zone = byte f 7;
  num_zones = byte f 8;
  zones_data = byte f 9;
}

-- `RMESSAGE_EVTMASTER_SET` behind the header.
pub record EvtMasterSet : Type 0 where
  pub flags : ℕ
  pub evt_flags : ℕ
  pub master_station_id : ℕ
  pub master_station_address : ℕ

unfoldable pub evtmaster_set_bytes : EvtMasterSet → List ℕ
evtmaster_set_bytes m =
    m.flags
    ∷ (word_bytes m.evt_flags ++ (m.master_station_id ∷ word_bytes m.master_station_address))

unfoldable pub evtmaster_set_of : List ℕ → EvtMasterSet
evtmaster_set_of f = record {
  flags = byte f 6;
  evt_flags = word f 7;
  master_station_id = byte f 9;
  master_station_address = word f 10;
}
