-- ===== src/Protocol/Link/Off.antt =====
-- The commands to switch off: `ChannelOff` and `AllChannelsOff`, and what another station makes of them.
use smart_garden.Prelude.{
  ap₂, if_both, ℕ, ◌+◌, ◌<◌, ◌≤◌, ◌≡◌, refl, sym, ap, ◌∙◌, subst, Bool, true, not, ◌&&◌, ◌||◌, List,
  [], ◌∷◌, ◌++◌, arith, ltb, leb, if_cases, if_true,
}
use smart_garden.Settings.{max_stations, max_zones, is_enabled_station, is_valid_station}
use smart_garden.Core.State.{Env}
use smart_garden.Core.Phase.{IsIdle}
use smart_garden.Core.Phase.Order.{turn_off_zones_worker-IsIdle}
use smart_garden.Core.Switch.Stopped.{IsLocal, IsOff, turn_off_zones_worker-IsOff}
use smart_garden.Core.Switch.{turn_off_zones_worker}
use smart_garden.Core.Commands.{remote_stop_all_zones}
use smart_garden.Protocol.Wire.{
  header_bytes, header_of, zones_set_bytes, zones_set_of, fcode_zones_set, fcode_response_error,
  my_station,
}
use smart_garden.Protocol.Node.{Node, Reception}
use smart_garden.Protocol.Send.{make_header, send_network_packet, send_error_response}
use smart_garden.Protocol.Request.{
  force_single_zone, send_force_single_zone, channel_on, channel_off, is_reachable, turn_off_all,
  send_turn_off_all_zones, all_channels_off,
}
use smart_garden.Protocol.Answer.{is_rcontrol_station, message_zones_set, set_zones}
use smart_garden.Protocol.Receive.{process_new_frame, dispatch, note_sender, note_contact}
use smart_garden.Protocol.Link.{
  newest_frame, send_zones_report-system, note_sender-config, note_sender-system,
}
use smart_garden.Protocol.Link.Command.{IsControlled, command_frame}

message_zones_set-off :
    (e : Env) (station chan : ℕ) (n : Node)
    → IsControlled e station chan n.config
    → (message_zones_set e (command_frame station chan 0) n).system
      ≡ turn_off_zones_worker n.config e n.system
unfolding message_zones_set set_zones remote_stop_all_zones command_frame header_bytes make_header
    header_of zones_set_of zones_set_bytes force_single_zone
message_zones_set-off e station chan n k =
    let st = n.config.load_short_station station e.uninit_station in
    let goal : Node → Type 0 = λ (x : Node). x.system ≡ turn_off_zones_worker n.config e n.system in
    if_cases goal (leb max_stations station) _ _ (λ t. absurd (ground (arith, k.in_range)))
      (λ _.
        if_cases goal (not (is_enabled_station st && is_valid_station st && is_rcontrol_station st))
          _ _ (λ t. absurd (ground (arith, k.enabled, k.valid, k.rcontrol)))
          (λ _.
            if_cases goal (ltb st.num_zone_channels (1 + chan) || ltb 1 1) _ _
              (λ t. absurd (ground (arith, k.channel)))
              (λ _. send_zones_report-system e 0 station my_station chan 1 _)))

-- `ChannelOff` for one channel of a station that takes commands on it stops all zones of that station as
-- `TurnOffZonesWorker` does, not only the channel's: with at most 64 zones, the cell of each configured
-- and enabled zone that an enabled station has on a local board is off. The station's scheduler is idle.
pub channel_off-delivered :
    (e1 e2 : Env) (r : Reception) (m n : Node) (station chan z : ℕ)
    → is_reachable m.config e1 station ≡ true
    → IsControlled e2 station chan n.config
    → n.config.num_zones ≤ max_zones
    → z < n.config.num_zones
    → IsLocal n.config e2 z
    → let (m1, sent) = channel_off e1 station chan m in
      let t = (process_new_frame e2 r (newest_frame m1) n).system in
      (sent ≡ true)
      × (t ≡ turn_off_zones_worker n.config e2 (note_contact e2 r my_station n.system))
      × IsIdle t
      × IsOff z t
unfolding channel_off channel_on send_force_single_zone send_network_packet command_frame
    header_bytes make_header header_of zones_set_bytes process_new_frame dispatch
channel_off-delivered e1 e2 r m n station chan z reach ctl fit configured local =
    let n1 = note_sender e2 r my_station n in
    let c = note_sender-config e2 r my_station n in
    let t1 = turn_off_zones_worker n.config e2 (note_contact e2 r my_station n.system) in
    let done : (process_new_frame e2 r (command_frame station chan 0) n).system ≡ t1 =
      message_zones_set-off e2 station chan n1 (subst (IsControlled e2 station chan) (sym c) ctl)
      ∙ ap₂ (λ c1 s1. turn_off_zones_worker c1 e2 s1) c (note_sender-system e2 r my_station n) in
    subst
      (λ (x : Node × Bool).
        let t = (process_new_frame e2 r (newest_frame x.0) n).system in
        (x.1 ≡ true) × (t ≡ t1) × IsIdle t × IsOff z t)
      (sym (if_true (is_reachable m.config e1 station) _ _ reach))
      (
        refl,
        done,
        subst IsIdle (sym done) (turn_off_zones_worker-IsIdle n.config e2 _),
        subst (IsOff z) (sym done)
            (turn_off_zones_worker-IsOff n.config e2 z _ configured fit local),
      )

-- The frame of `SendTurnOffAllZones`.
off_frame : ℕ → List ℕ
off_frame station =
    header_bytes (make_header fcode_zones_set 0 my_station station 6)
    ++ zones_set_bytes turn_off_all

message_zones_set-refused :
    (e : Env) (station : ℕ) (n : Node)
    → (n.config.load_short_station station e.uninit_station).num_zone_channels < 255
    → message_zones_set e (off_frame station) n
      ≡ send_error_response 0 station my_station fcode_zones_set 2 n
unfolding message_zones_set off_frame header_bytes make_header header_of zones_set_of
    zones_set_bytes turn_off_all
message_zones_set-refused e station n few =
    let st = n.config.load_short_station station e.uninit_station in
    let no = send_error_response 0 station my_station fcode_zones_set 2 n in
    if_both (λ x. x ≡ no) (leb max_stations station) _ _ refl
      (if_both (λ x. x ≡ no)
        (not (is_enabled_station st && is_valid_station st && is_rcontrol_station st)) _ _ refl
        (if_cases (λ x. x ≡ no) (ltb st.num_zone_channels (255 + 0) || ltb 255 1) _ _ (λ _. refl)
          (λ f. absurd (ground (arith, few)))))

-- The command of `AllChannelsOff` is refused by every station with fewer than 255 channels: it
-- answers with an error, and apart from the contact with the sender its scheduler, its zones and its
-- boards stay as they are.
pub all_channels_off-refused :
    (e1 e2 : Env) (r : Reception) (m n : Node) (station : ℕ)
    → is_reachable m.config e1 station ≡ true
    → (n.config.load_short_station station e2.uninit_station).num_zone_channels < 255
    → let (m1, sent) = all_channels_off e1 station m in
      let t = process_new_frame e2 r (newest_frame m1) n in
      (sent ≡ true)
      × (t.system ≡ note_contact e2 r my_station n.system)
      × (newest_frame t
          ≡ header_bytes (make_header fcode_response_error 0 station my_station 2)
            ++ (fcode_zones_set ∷ 2 ∷ []))
unfolding all_channels_off send_turn_off_all_zones send_network_packet off_frame header_bytes
    make_header header_of zones_set_bytes turn_off_all process_new_frame dispatch
    send_error_response
all_channels_off-refused e1 e2 r m n station reach few =
    let n1 = note_sender e2 r my_station n in
    let c = note_sender-config e2 r my_station n in
    let no = send_error_response 0 station my_station fcode_zones_set 2 n1 in
    let done : process_new_frame e2 r (off_frame station) n ≡ no =
      message_zones_set-refused e2 station n1 (
        subst (λ c1. (c1.load_short_station station e2.uninit_station).num_zone_channels < 255)
          (sym c) few) in
    subst
      (λ (x : Node × Bool).
        let t = process_new_frame e2 r (newest_frame x.0) n in
        (x.1 ≡ true)
        × (t.system ≡ note_contact e2 r my_station n.system)
        × (newest_frame t
            ≡ header_bytes (make_header fcode_response_error 0 station my_station 2)
              ++ (fcode_zones_set ∷ 2 ∷ [])))
      (sym (if_true (is_reachable m.config e1 station) _ _ reach))
      (refl, ap (λ x. x.system) done ∙ note_sender-system e2 r my_station n, ap newest_frame done)
