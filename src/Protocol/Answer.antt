-- ===== src/Protocol/Answer.antt =====
-- The handlers of RProtocolMS.cpp for the requests of a master.
use smart_garden.Prelude.{
  ℕ, zero, suc, ◌+◌, Bool, not, ◌&&◌, ◌||◌, List, ltb, leb, ◌==◌, if◌then◌else◌, bit,
}
use smart_garden.Settings.{ShortStation, max_stations, is_enabled_station, is_valid_station}
use smart_garden.Core.State.{Config, Env, System}
use smart_garden.Core.Commands.{remote_start_zone, remote_stop_all_zones}
use smart_garden.Protocol.Wire.{
  Header, ZonesSet, header_of, range_of, zones_set_of, evtmaster_set_of, long, fcode_zones_read,
}
use smart_garden.Protocol.Node.{Node}
use smart_garden.Protocol.Send.{
  send_ok_response, send_error_response, send_ping_reply, send_evtmaster_report, send_zones_report,
  send_sensors_report,
}

abbrev pub is_rstatus_station : ShortStation → Bool
is_rstatus_station st = bit st.station_flags 2

abbrev pub is_rcontrol_station : ShortStation → Bool
is_rcontrol_station st = bit st.station_flags 3

-- The answer "illegal data address" to a request.
abbrev pub refuse : Header → ℕ → Node → Node
refuse h fcode n = send_error_response h.transaction_id h.to_unit_id h.from_unit_id fcode 2 n

-- The answers that the flags of a request ask for.
abbrev pub wants_brief : ℕ → Bool
wants_brief flags = bit flags 1

abbrev pub wants_report : ℕ → Bool
wants_report flags = bit flags 2

abbrev pub acknowledge : Header → ℕ → (Node → Node) → Node → Node
acknowledge h flags report n =
    let n1 =
      if wants_brief flags
      then send_ok_response h.transaction_id h.to_unit_id h.from_unit_id h.fcode n
      else n in
    if wants_report flags then report n1 else n1

module _ (e : Env) where
  unfoldable pub message_zones_read : List ℕ → Node → Node
  message_zones_read f n =
      let h = header_of f in
      let m = range_of f in
      let st = n.config.load_short_station h.to_unit_id e.uninit_station in
      let num = if m.first == 0 && m.num == 255 then st.num_zone_channels else m.num in
      if not (h.payload_length == 2)
      then n
      else if leb max_stations h.to_unit_id
      then refuse h fcode_zones_read n
      else if not (is_valid_station st && is_rstatus_station st)
      then refuse h fcode_zones_read n
      else if ltb st.num_zone_channels (m.first + num) || ltb num 1
      then refuse h fcode_zones_read n
      else (send_zones_report e h.transaction_id h.to_unit_id h.from_unit_id m.first num n).0

  -- The loop of `MessageZonesSet` over the `k` channels from `i` on.
  unfoldable pub start_zones : Config → ZonesSet → ℕ → ℕ → ℕ → System → System
  start_zones c m station i zero s = s
  start_zones c m station i (suc k) s =
      start_zones c m station (i + 1) k
        (if bit m.zones_data i then (remote_start_zone c e station i m.ttr s).0 else s)

  -- The action of `MessageZonesSet` behind its checks.
  unfoldable pub set_zones : Config → ℕ → ZonesSet → System → System
  unfolding start_zones
  set_zones c station m s =
      if m.ttr == 0
      then remote_stop_all_zones c e s
      else start_zones c m station m.first_zone m.num_zones s

  unfoldable pub message_zones_set : List ℕ → Node → Node
  unfolding set_zones
  message_zones_set f n =
      let h = header_of f in
      let m = zones_set_of f in
      let st = n.config.load_short_station h.to_unit_id e.uninit_station in
      if not (h.payload_length == 6)
      then n
      else if leb max_stations h.to_unit_id
      then refuse h h.fcode n
      else if not (is_enabled_station st && is_valid_station st && is_rcontrol_station st)
      then refuse h h.fcode n
      else if ltb st.num_zone_channels (m.num_zones + m.first_zone) || ltb m.num_zones 1
      then refuse h h.fcode n
      else acknowledge h m.flags
          (λ (n1 : Node).
            (send_zones_report e h.transaction_id h.to_unit_id h.from_unit_id m.first_zone
              m.num_zones n1).0)
          (record n { system = set_zones n.config h.to_unit_id m n.system })

unfoldable pub message_evtmaster_read : List ℕ → Node → Node
message_evtmaster_read f n =
    let h = header_of f in send_evtmaster_report h.transaction_id h.to_unit_id h.from_unit_id n

unfoldable pub message_evtmaster_set : List ℕ → Node → Node
message_evtmaster_set f n =
    let h = header_of f in
    let m = evtmaster_set_of f in
    let id = if bit m.evt_flags 0 then h.from_unit_id else m.master_station_id in
    if not (h.payload_length == 6)
    then n
    else acknowledge h m.flags
        (λ (n1 : Node). send_evtmaster_report h.transaction_id h.to_unit_id h.from_unit_id n1)
        (record n {
          config = record (n.config) { evt_master_flags = m.evt_flags; evt_master_station_id = id };
        })

unfoldable pub message_sensors_read : List ℕ → Node → Node
message_sensors_read f n =
    let h = header_of f in
    let m = range_of f in
    let num = if m.first == 0 && m.num == 255 then n.num_sensors else m.num in
    if not (h.payload_length == 2)
    then n
    else if ltb n.num_sensors (m.first + num)
    then refuse h h.fcode n
    else (send_sensors_report h.transaction_id h.to_unit_id h.from_unit_id m.first num n).0

unfoldable pub message_ping : List ℕ → Node → Node
message_ping f n =
    let h = header_of f in
    if not (h.payload_length == 4)
    then n
    else send_ping_reply h.transaction_id h.to_unit_id h.from_unit_id (long f 6) n
