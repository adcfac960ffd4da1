-- ===== src/Protocol/Link/Report.antt =====
-- A report of zones on its way: the cells of a station follow what the station said.
use smart_garden.Prelude.{
  ap₂, ℕ, ◌+◌, ◌≤◌, ◌<◌, ◌≡◌, refl, sym, ap, ◌∙◌, subst, ◌⊎◌, Bool, true, ◌&&◌, List, ◌++◌, arith,
  ltb, leb, if◌then◌else◌, length, get_or, if_cases, if_true,
}
use smart_garden.Settings.{ShortStation, max_stations, is_enabled_station, is_valid_station}
use smart_garden.Core.State.{Config, Env, System, zone_state_running, zone_state_off}
use smart_garden.Core.Zones.{report_channels, report_station_zones_status}
use smart_garden.Protocol.Wire.{
  header_bytes, header_of, zones_report_bytes, zones_report_of, fcode_zones_report,
  max_remote_stations, my_station,
}
use smart_garden.Protocol.Node.{Node, Reception, emit, packet}
use smart_garden.Protocol.Send.{make_header, send_network_packet, send_zones_report, zones_status}
use smart_garden.Protocol.Report.{message_zones_report}
use smart_garden.Protocol.Receive.{process_new_frame, dispatch, note_sender, note_contact}
use smart_garden.Protocol.Link.{newest_frame, note_sender-config, note_sender-system}
use smart_garden.Protocol.Link.Status.{
  is_channel_on, zones_status-bit, report_channels-cell, report_channels-other,
}

-- The frame of `SendZonesReport`.
report_frame : ℕ → ℕ → ℕ → ℕ → ℕ → List ℕ
report_frame t station first num status =
    header_bytes (make_header fcode_zones_report t station my_station 4)
    ++ zones_report_bytes
        (record { station_flags = 1; first_zone = first; num_zones = num; zones_data = status })

message_zones_report-zones :
    (e : Env) (t station first num status : ℕ) (m : Node)
    → let st = m.config.load_short_station station e.uninit_station in
      station ≤ max_remote_stations
      → first + num ≤ m.config.num_zones
      → is_valid_station st ≡ true
      → is_enabled_station st ≡ true
      → (message_zones_report e (report_frame t station first num status) m).system.zones
        ≡ report_channels st.start_zone status 0 st.num_zone_channels m.system.zones
unfolding message_zones_report report_station_zones_status report_frame header_bytes make_header
    header_of zones_report_of zones_report_bytes
message_zones_report-zones e t station first num status m a b v w = ground arith

note_contact-zones :
    (e : Env) (r : Reception) (from : ℕ) (s : System) → (note_contact e r from s).zones ≡ s.zones
unfolding note_contact
note_contact-zones e r from s = ground arith

process_new_frame-zones :
    (e : Env) (r : Reception) (t station first num status : ℕ) (m : Node)
    → let st = m.config.load_short_station station e.uninit_station in
      station ≤ max_remote_stations
      → first + num ≤ m.config.num_zones
      → is_valid_station st ≡ true
      → is_enabled_station st ≡ true
      → (process_new_frame e r (report_frame t station first num status) m).system.zones
        ≡ report_channels st.start_zone status 0 st.num_zone_channels m.system.zones
unfolding process_new_frame dispatch report_frame header_bytes make_header header_of
    zones_report_bytes
process_new_frame-zones e r t station first num status m a b v w =
    let m1 = note_sender e r station m in
    let c = note_sender-config e r station m in
    let st : Config → ShortStation = λ c1. c1.load_short_station station e.uninit_station in
    message_zones_report-zones e t station first num status m1 a
      (subst (λ c1. first + num ≤ c1.num_zones) (sym c) b)
      (subst (λ c1. is_valid_station (st c1) ≡ true) (sym c) v)
      (subst (λ c1. is_enabled_station (st c1) ≡ true) (sym c) w)
    ∙ ap₂ (λ c1 zs. report_channels (st c1).start_zone status 0 (st c1).num_zone_channels zs) c
        (ap (λ s. s.zones) (note_sender-system e r station m)
          ∙ note_contact-zones e r station m.system)

-- An enabled station reports a range of its first 8 channels to the master, which knows the station
-- (number 9 at most) as valid and enabled, with a cell for each of its channels and at least as many
-- zones as the range needs. Then the frame is sent, and the cell of each of these channels in the
-- master's cache is "running" when the channel is in the range and running or starting at the sender,
-- and "off" otherwise. Cells that are not the station's keep their value.
pub zones_report-delivered :
    (e1 e2 : Env) (r : Reception) (n m : Node) (t station first num j x : ℕ)
    → let st1 = n.config.load_short_station station e1.uninit_station in
      let st2 = m.config.load_short_station station e2.uninit_station in
      station ≤ max_remote_stations
      → is_enabled_station st1 ≡ true
      → first + num ≤ st1.num_zone_channels
      → first + num ≤ 8
      → first + num ≤ m.config.num_zones
      → is_valid_station st2 ≡ true
      → is_enabled_station st2 ≡ true
      → st2.start_zone + st2.num_zone_channels ≤ length m.system.zones
      → j < st2.num_zone_channels
      → j < 8
      → (x < st2.start_zone) ⊎ (st2.start_zone + st2.num_zone_channels ≤ x)
      → let (n1, sent) = send_zones_report e1 t station my_station first num n in
        let zones = (process_new_frame e2 r (newest_frame n1) m).system.zones in
        (sent ≡ true)
        × (get_or zones (st2.start_zone + j) 0 ≡ (
            if leb first j
              && ltb j (first + num)
              && is_channel_on n.config n.system st1.start_zone j
            then zone_state_running
            else zone_state_off))
        × (get_or zones x 0 ≡ get_or m.system.zones x 0)
unfolding send_zones_report send_network_packet report_frame
zones_report-delivered e1 e2 r n m t station first num j x a en le le8 lez v w fits jl j8 out =
    let st1 = n.config.load_short_station station e1.uninit_station in
    let st2 = m.config.load_short_station station e2.uninit_station in
    let status = zones_status n.config n.system st1.start_zone first num 0 in
    let on =
      leb first j && ltb j (first + num) && is_channel_on n.config n.system st1.start_zone j in
    let bits =
      zones_status-bit n.config n.system st1.start_zone j first num 0 (omega arith) le8 j8 in
    let cell = if on then zone_state_running else zone_state_off in
    let goal : Node × Bool → Type 0 = λ (y : Node × Bool).
      let zones = (process_new_frame e2 r (newest_frame y.0) m).system.zones in
      (y.1 ≡ true)
      × (get_or zones (st2.start_zone + j) 0 ≡ cell)
      × (get_or zones x 0 ≡ get_or m.system.zones x 0) in
    let sent : ℕ → Node × Bool =
      λ (v : ℕ). (emit (packet my_station (report_frame t station first num v)) n, true) in
    let arrived = process_new_frame-zones e2 r t station first num status m a lez v w in
    let done : goal (sent status) = (
      refl,
      ap (λ zs. get_or zs (st2.start_zone + j) 0) arrived
          ∙ report_channels-cell st2.start_zone status 0 st2.num_zone_channels m.system.zones j
              (omega arith) (omega arith) (omega arith)
          ∙ ap (λ b. if b then zone_state_running else zone_state_off) (bits.1 ∙ ground arith),
      ap (λ zs. get_or zs x 0) arrived
          ∙ report_channels-other st2.start_zone status 0 st2.num_zone_channels m.system.zones x
              (ground arith),
    ) in
    if_cases goal (leb max_stations station) _ _ (λ h. absurd (ground arith))
      (λ _.
        if_cases goal (is_enabled_station st1 && ltb st1.num_zone_channels (first + num)) _ _
          (λ h. absurd (ground arith))
          (λ _.
            subst (λ k. goal (sent k)) (sym (if_true (is_enabled_station st1) status 0 en)) done))
