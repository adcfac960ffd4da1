-- ===== src/Protocol/Receive.antt =====
-- `ProcessNewFrame` of RProtocolMS.cpp: the checks of a frame, the contact with its sender, and the
-- handler of its function code. Messages whose handlers only trace (`SYSREGISTERS_REPORT`,
-- `PING_REPLY`, `RESPONSE_ERROR`, `EVTMASTER_REPORT`, `SCAN`, `SCAN_REPLY`) fall under the default.
use smart_garden.Prelude.{ℕ, ◌+◌, Bool, ◌&&◌, List, ltb, leb, ◌==◌, if◌then◌else◌, length, set}
use smart_garden.Settings.{max_stations}
use smart_garden.Core.State.{Env, System}
use smart_garden.Protocol.Wire.{
  header_of, rprotocol_id, fcode_zones_read, fcode_zones_set, fcode_zones_report,
  fcode_sensors_read, fcode_sensors_report, fcode_evtmaster_read, fcode_evtmaster_set,
  fcode_sysevt_report, fcode_ping, fcode_time_broadcast,
}
use smart_garden.Protocol.Node.{Node, Reception, emit, address_seen}
use smart_garden.Protocol.Log.{log_error}
use smart_garden.Protocol.Report.{
  message_zones_report, message_sensors_report, message_sysevt_report, message_time_broadcast,
}
use smart_garden.Protocol.Answer.{
  message_zones_read, message_zones_set, message_evtmaster_read, message_evtmaster_set,
  message_sensors_read, message_ping,
}

-- The three checks: a whole header, the protocol, and the length in the header.
abbrev pub is_frame : List ℕ → Bool
is_frame f =
    leb 6 (length f)
    && ((header_of f).protocol_id == rprotocol_id && length f == (header_of f).payload_length + 6)

module _ (e : Env) (r : Reception) where
  -- The time and the signal strength of the last contact, for a station that the tables have.
  unfoldable pub note_contact : ℕ → System → System
  note_contact from s =
      if ltb from max_stations
      then record s {
        last_contact_time = set s.last_contact_time from e.millis;
        last_received_rssi = set s.last_received_rssi from r.rssi;
      }
      else s

  -- What is done for every frame that passes the checks. An error message that its handler logs goes out
  -- here: the handlers log before they change or send anything.
  unfoldable pub note_sender : ℕ → Node → Node
  unfolding note_contact
  note_sender from n =
      let n1 = record n { last_received_station_id = from; system = note_contact from n.system } in
      log_error e r (if r.has_address then emit (address_seen from) n1 else n1)

  -- The switch on the function code. Only a remote station is a client of the time broadcasts.
  unfoldable pub dispatch : List ℕ → Node → Node
  dispatch f n =
      let fcode = (header_of f).fcode in
      if fcode == fcode_zones_report
      then message_zones_report e f n
      else if fcode == fcode_sensors_report
      then message_sensors_report e f n
      else if fcode == fcode_sysevt_report
      then message_sysevt_report r f n
      else if fcode == fcode_ping
      then message_ping f n
      else if fcode == fcode_time_broadcast
      then (if n.config.master then n else message_time_broadcast f n)
      else if fcode == fcode_zones_read
      then message_zones_read e f n
      else if fcode == fcode_zones_set
      then message_zones_set e f n
      else if fcode == fcode_evtmaster_read
      then message_evtmaster_read f n
      else if fcode == fcode_evtmaster_set
      then message_evtmaster_set f n
      else if fcode == fcode_sensors_read
      then message_sensors_read f n
      else n

  unfoldable pub process_new_frame : List ℕ → Node → Node
  unfolding dispatch note_sender
  process_new_frame f n =
      if is_frame f then dispatch f (note_sender (header_of f).from_unit_id n) else log_error e r n
