-- ===== src/Protocol/Keep/Handlers.antt =====
-- Every handler of a message keeps a station healthy.
use smart_garden.Prelude.{
  if_both, ℕ, zero, suc, ◌+◌, inl, not, ◌||◌, List, arith, ltb, ◌==◌, if◌then◌else◌, u8, bit,
}
use smart_garden.Core.State.{Config, Env, System}
use smart_garden.Core.Zones.{report_station_zones_status}
use smart_garden.Core.Zones.Cells.{report_channels-IsCell}
use smart_garden.Core.Phase.{IsPhase, IsFitting}
use smart_garden.Core.Phase.Order.{start_zone_worker-IsPhase, turn_off_zones_worker-IsIdle}
use smart_garden.Core.Phase.Legal.{start_zone_worker-HasCells}
use smart_garden.Core.Commands.{remote_start_zone, remote_stop_all_zones}
use smart_garden.Core.Switch.Cells.{HasCells, HasCells-turn_off_zones_worker}
use smart_garden.Protocol.Wire.{Header, header_of, zones_report_of, ZonesSet, max_remote_stations}
use smart_garden.Protocol.Node.{Node}
use smart_garden.Protocol.Send.{send_ok_response}
use smart_garden.Protocol.Report.{message_zones_report}
use smart_garden.Protocol.Answer.{
  refuse, acknowledge, wants_brief, wants_report, start_zones, set_zones,
}
use smart_garden.Protocol.Keep.{Healthy, send_ok_response-Healthy, send_error_response-Healthy}

module _ (k : ℕ) where
  -- A change of the system that keeps its phase and its cells.
  pub system-Healthy :
      (n : Node) (s : System)
      → IsPhase k s
      → HasCells s
      → Healthy k n
      → Healthy k (record n { system = s })
  system-Healthy n s p c h = record {
    fit = h.fit;
    sensors_fit = h.sensors_fit;
    phase = p;
    cells = c;
    sound = h.sound;
  }

  pub refuse-Healthy :
      (m : Header) (fcode : ℕ) (n : Node) → Healthy k n → Healthy k (refuse m fcode n)
  refuse-Healthy m fcode n h =
      send_error_response-Healthy k m.transaction_id m.to_unit_id m.from_unit_id fcode 2 n h

  pub acknowledge-Healthy :
      (m : Header) (flags : ℕ) (report : Node → Node) (n : Node)
      → ((n1 : Node) → Healthy k n1 → Healthy k (report n1))
      → Healthy k n
      → Healthy k (acknowledge m flags report n)
  acknowledge-Healthy m flags report n keeps h =
      let n1 =
        if wants_brief flags
        then send_ok_response m.transaction_id m.to_unit_id m.from_unit_id m.fcode n
        else n in
      let h1 : Healthy k n1 =
        if_both (Healthy k) (wants_brief flags) _ _
          (send_ok_response-Healthy k m.transaction_id m.to_unit_id m.from_unit_id m.fcode n h) h in
      if_both (Healthy k) (wants_report flags) _ _ (keeps n1 h1) h1

  module _ (e : Env) where
    report_station-IsPhase :
        (c : Config) (station status : ℕ) (s : System)
        → IsPhase k s
        → IsPhase k (report_station_zones_status c e station status s)
    unfolding report_station_zones_status
    report_station-IsPhase c station status s p = ground arith

    report_station-HasCells :
        (c : Config) (station status : ℕ) (s : System)
        → HasCells s
        → HasCells (report_station_zones_status c e station status s)
    unfolding report_station_zones_status
    report_station-HasCells c station status s h =
        let st = c.load_short_station station e.uninit_station in
        ground (arith, report_channels-IsCell st.start_zone status 0 st.num_zone_channels s.zones h)

    pub message_zones_report-Healthy :
        (f : List ℕ) (n : Node) → Healthy k n → Healthy k (message_zones_report e f n)
    unfolding message_zones_report
    message_zones_report-Healthy f n h =
        let m = header_of f in
        let z = zones_report_of f in
        if_both (Healthy k) (not (m.payload_length == 4)) _ _ h (
          if_both (Healthy k)
            (ltb n.config.num_zones (z.first_zone + z.num_zones)
              || ltb max_remote_stations m.from_unit_id)
            _ _ h
            (system-Healthy n _
              (report_station-IsPhase n.config m.from_unit_id z.zones_data n.system h.phase)
              (report_station-HasCells n.config m.from_unit_id z.zones_data n.system h.cells) h))

    start_zones-IsPhase :
        (c : Config) (fit : IsFitting k c) (m : ZonesSet) (station i j : ℕ) (s : System)
        → IsPhase k s
        → IsPhase k (start_zones e c m station i j s)
    unfolding start_zones remote_start_zone
    start_zones-IsPhase c fit m station i zero s p = p
    start_zones-IsPhase c fit m station i (suc j) s p =
        start_zones-IsPhase c fit m station (i + 1) j _ (
          if_both (IsPhase k) (bit m.zones_data i) _ _
            (start_zone_worker-IsPhase c e k fit station i (u8 (m.ttr + 1)) s p) p)

    start_zones-HasCells :
        (c : Config) (m : ZonesSet) (station i j : ℕ) (s : System)
        → HasCells s
        → HasCells (start_zones e c m station i j s)
    unfolding start_zones remote_start_zone
    start_zones-HasCells c m station i zero s p = p
    start_zones-HasCells c m station i (suc j) s p = start_zones-HasCells c m station (i + 1) j _ (
        if_both HasCells (bit m.zones_data i) _ _
          (start_zone_worker-HasCells c e station i (u8 (m.ttr + 1)) s p) p)

    pub set_zones-Healthy :
        (station : ℕ) (m : ZonesSet) (n : Node)
        → Healthy k n
        → Healthy k (record n { system = set_zones e n.config station m n.system })
    unfolding set_zones remote_stop_all_zones
    set_zones-Healthy station m n h =
        let c = n.config in
        let s = n.system in
        system-Healthy n _
          (if_both (IsPhase k) (m.ttr == 0) _ _ (inl (turn_off_zones_worker-IsIdle c e s))
            (start_zones-IsPhase c h.fit m station m.first_zone m.num_zones s h.phase))
          (if_both HasCells (m.ttr == 0) _ _ (HasCells-turn_off_zones_worker c e s h.cells)
            (start_zones-HasCells c m station m.first_zone m.num_zones s h.cells))
          h
