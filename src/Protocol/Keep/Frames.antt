-- ===== src/Protocol/Keep/Frames.antt =====
-- A frame of any content keeps a station healthy.
use smart_garden.Prelude.{
  if_both, ℕ, ◌+◌, not, ◌&&◌, ◌||◌, List, ltb, leb, ◌==◌, if◌then◌else◌, bit,
}
use smart_garden.Settings.{max_stations, is_enabled_station, is_valid_station}
use smart_garden.Core.State.{Env}
use smart_garden.Core.Phase.{IsPhase}
use smart_garden.Core.Switch.Cells.{HasCells}
use smart_garden.Protocol.Wire.{
  header_of, zones_set_of, range_of, evtmaster_set_of, long, sysevent_max_string_length,
  fcode_zones_read, fcode_zones_set, fcode_zones_report, fcode_sensors_read, fcode_sensors_report,
  fcode_evtmaster_read, fcode_evtmaster_set, fcode_sysevt_report, fcode_ping, fcode_time_broadcast,
}
use smart_garden.Protocol.Node.{Node, Reception}
use smart_garden.Protocol.Report.{message_time_broadcast, message_sysevt_report, byte_at}
use smart_garden.Protocol.Answer.{
  is_rstatus_station, is_rcontrol_station, message_zones_read, message_zones_set,
  message_evtmaster_read, message_evtmaster_set, message_sensors_read, message_ping,
}
use smart_garden.Protocol.Receive.{is_frame, note_contact, note_sender, dispatch, process_new_frame}
use smart_garden.Protocol.Keep.{
  Healthy, emit-Healthy, send_ping_reply-Healthy, send_evtmaster_report-Healthy,
  send_zones_report-Healthy, send_sensors_report-Healthy,
}
use smart_garden.Protocol.Keep.Handlers.{
  refuse-Healthy, acknowledge-Healthy, message_zones_report-Healthy, set_zones-Healthy,
}
use smart_garden.Protocol.Keep.Logging.{log_error-Healthy}
use smart_garden.Protocol.Keep.Sensing.{message_sensors_report-Healthy}

module _ (k : ℕ) where
  message_time_broadcast-Healthy :
      (f : List ℕ) (n : Node) → Healthy k n → Healthy k (message_time_broadcast f n)
  unfolding message_time_broadcast
  message_time_broadcast-Healthy f n h =
      if_both (Healthy k) (not ((header_of f).payload_length == 4)) _ _ h (emit-Healthy k _ n tt h)

  message_sysevt_report-Healthy :
      (r : Reception) (f : List ℕ) (n : Node)
      → Healthy k n
      → Healthy k (message_sysevt_report r f n)
  unfolding message_sysevt_report
  message_sysevt_report-Healthy r f n h =
      if_both (Healthy k) (ltb sysevent_max_string_length (byte_at r f 14)) _ _ h
        (emit-Healthy k _ n tt h)

  message_ping-Healthy : (f : List ℕ) (n : Node) → Healthy k n → Healthy k (message_ping f n)
  unfolding message_ping
  message_ping-Healthy f n h =
      let m = header_of f in
      if_both (Healthy k) (not (m.payload_length == 4)) _ _ h
        (send_ping_reply-Healthy k m.transaction_id m.to_unit_id m.from_unit_id (long f 6) n h)

  message_evtmaster_read-Healthy :
      (f : List ℕ) (n : Node) → Healthy k n → Healthy k (message_evtmaster_read f n)
  unfolding message_evtmaster_read
  message_evtmaster_read-Healthy f n h =
      let m = header_of f in
      send_evtmaster_report-Healthy k m.transaction_id m.to_unit_id m.from_unit_id n h

  -- The settings of the event master are not among those that must fit.
  master-Healthy :
      (n : Node) (flags id : ℕ)
      → Healthy k n
      → Healthy k (record n {
        config = record (n.config) { evt_master_flags = flags; evt_master_station_id = id };
      })
  master-Healthy n flags id h = record {
    fit = record {
      zones = h.fit.zones;
      zones_fit = h.fit.zones_fit;
      schedules_fit = h.fit.schedules_fit;
    };
    sensors_fit = h.sensors_fit;
    phase = h.phase;
    cells = h.cells;
    sound = h.sound;
  }

  message_evtmaster_set-Healthy :
      (f : List ℕ) (n : Node) → Healthy k n → Healthy k (message_evtmaster_set f n)
  unfolding message_evtmaster_set
  message_evtmaster_set-Healthy f n h =
      let m = header_of f in
      let g = evtmaster_set_of f in
      if_both (Healthy k) (not (m.payload_length == 6)) _ _ h (
        acknowledge-Healthy k m g.flags _ _
          (λ n1 h1.
            send_evtmaster_report-Healthy k m.transaction_id m.to_unit_id m.from_unit_id n1 h1)
          (master-Healthy n g.evt_flags
            (if bit g.evt_flags 0 then m.from_unit_id else g.master_station_id) h))

  message_sensors_read-Healthy :
      (f : List ℕ) (n : Node) → Healthy k n → Healthy k (message_sensors_read f n)
  unfolding message_sensors_read
  message_sensors_read-Healthy f n h =
      let m = header_of f in
      let g = range_of f in
      let num = if g.first == 0 && g.num == 255 then n.num_sensors else g.num in
      if_both (Healthy k) (not (m.payload_length == 2)) _ _ h (
        if_both (Healthy k) (ltb n.num_sensors (g.first + num)) _ _ (refuse-Healthy k m m.fcode n h)
          (send_sensors_report-Healthy k m.transaction_id m.to_unit_id m.from_unit_id g.first num n
            h))

  module _ (e : Env) where
    message_zones_read-Healthy :
        (f : List ℕ) (n : Node) → Healthy k n → Healthy k (message_zones_read e f n)
    unfolding message_zones_read
    message_zones_read-Healthy f n h =
        let m = header_of f in
        let g = range_of f in
        let st = n.config.load_short_station m.to_unit_id e.uninit_station in
        let num = if g.first == 0 && g.num == 255 then st.num_zone_channels else g.num in
        let no : Healthy k _ = refuse-Healthy k m fcode_zones_read n h in
        if_both (Healthy k) (not (m.payload_length == 2)) _ _ h (
          if_both (Healthy k) (leb max_stations m.to_unit_id) _ _ no (
            if_both (Healthy k) (not (is_valid_station st && is_rstatus_station st)) _ _ no (
              if_both (Healthy k) (ltb st.num_zone_channels (g.first + num) || ltb num 1) _ _ no (
                send_zones_report-Healthy k e m.transaction_id m.to_unit_id m.from_unit_id g.first
                  num n h))))

    message_zones_set-Healthy :
        (f : List ℕ) (n : Node) → Healthy k n → Healthy k (message_zones_set e f n)
    unfolding message_zones_set
    message_zones_set-Healthy f n h =
        let m = header_of f in
        let g = zones_set_of f in
        let st = n.config.load_short_station m.to_unit_id e.uninit_station in
        let no : Healthy k _ = refuse-Healthy k m m.fcode n h in
        if_both (Healthy k) (not (m.payload_length == 6)) _ _ h (
          if_both (Healthy k) (leb max_stations m.to_unit_id) _ _ no (
            if_both (Healthy k)
              (not (is_enabled_station st && is_valid_station st && is_rcontrol_station st)) _ _ no
              (if_both (Healthy k)
                (ltb st.num_zone_channels (g.num_zones + g.first_zone) || ltb g.num_zones 1) _ _ no
                (acknowledge-Healthy k m g.flags _ _
                  (λ n1 h1.
                    send_zones_report-Healthy k e m.transaction_id m.to_unit_id m.from_unit_id
                      g.first_zone g.num_zones n1 h1)
                  (set_zones-Healthy k e m.to_unit_id g n h)))))

    dispatch-Healthy :
        (r : Reception) (f : List ℕ) (n : Node) → Healthy k n → Healthy k (dispatch e r f n)
    unfolding dispatch
    dispatch-Healthy r f n h =
        let P = Healthy k in
        let c = (header_of f).fcode in
        if_both P (c == fcode_zones_report) _ _ (message_zones_report-Healthy k e f n h) (
          if_both P (c == fcode_sensors_report) _ _ (message_sensors_report-Healthy k e f n h) (
            if_both P (c == fcode_sysevt_report) _ _ (message_sysevt_report-Healthy r f n h) (
              if_both P (c == fcode_ping) _ _ (message_ping-Healthy f n h) (
                if_both P (c == fcode_time_broadcast) _ _
                  (if_both P n.config.master _ _ h (message_time_broadcast-Healthy f n h))
                  (if_both P (c == fcode_zones_read) _ _ (message_zones_read-Healthy f n h) (
                    if_both P (c == fcode_zones_set) _ _ (message_zones_set-Healthy f n h) (
                      if_both P (c == fcode_evtmaster_read) _ _
                        (message_evtmaster_read-Healthy f n h)
                        (if_both P (c == fcode_evtmaster_set) _ _
                          (message_evtmaster_set-Healthy f n h)
                          (if_both P (c == fcode_sensors_read) _ _
                            (message_sensors_read-Healthy f n h) h)))))))))

    note_sender-Healthy :
        (r : Reception) (from : ℕ) (n : Node) → Healthy k n → Healthy k (note_sender e r from n)
    unfolding note_sender note_contact
    note_sender-Healthy r from n h =
        let s = n.system in
        let s1 = note_contact e r from s in
        let phase : IsPhase k s1 =
          if_both (IsPhase k) (ltb from max_stations) _ _ h.phase h.phase in
        let cells : HasCells s1 = if_both HasCells (ltb from max_stations) _ _ h.cells h.cells in
        let n1 = record n { last_received_station_id = from; system = s1 } in
        let h1 : Healthy k n1 = record {
          fit = h.fit;
          sensors_fit = h.sensors_fit;
          phase = phase;
          cells = cells;
          sound = h.sound;
        } in
        log_error-Healthy k e r _
          (if_both (Healthy k) r.has_address _ _ (emit-Healthy k _ n1 tt h1) h1)

    -- Whatever bytes arrive, a station whose settings fit its tables, whose scheduler is in one of its
    -- phases, whose zone state cache holds legal values and which has sent only frames that pass the
    -- receiver's checks is such a station again after `ProcessNewFrame`.
    pub process_new_frame-Healthy :
        (r : Reception) (f : List ℕ) (n : Node)
        → Healthy k n
        → Healthy k (process_new_frame e r f n)
    unfolding process_new_frame
    process_new_frame-Healthy r f n h =
        if_both (Healthy k) (is_frame f) _ _
          (dispatch-Healthy r f _ (note_sender-Healthy r (header_of f).from_unit_id n h))
          (log_error-Healthy k e r n h)
