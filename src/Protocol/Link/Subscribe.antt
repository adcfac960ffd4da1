-- ===== src/Protocol/Link/Subscribe.antt =====
-- A master registers for the events of a station: `SubscribeEvents` there, `MessageEvtMasterSet` here,
-- and `NotifySysEvent` from then on.
use smart_garden.Prelude.{
  ℕ, ◌+◌, ◌<◌, ◌≡◌, refl, ap, Bool, true, not, ◌||◌, ◌∷◌, ◌++◌, if◌then◌else◌, arith, leb, if_cases,
}
use smart_garden.Settings.{max_stations, is_enabled_station}
use smart_garden.Core.State.{Config, Env}
use smart_garden.Protocol.Wire.{
  header_bytes, header_of, evtmaster_set_bytes, evtmaster_set_of, my_station, report_all,
  fcode_evtmaster_report, word_bytes,
}
use smart_garden.Protocol.Node.{Node, Reception}
use smart_garden.Protocol.Send.{make_header, send_network_packet, send_evtmaster_report}
use smart_garden.Protocol.Request.{is_radio, send_register_evtmaster, subscribe_events}
use smart_garden.Protocol.Answer.{message_evtmaster_set}
use smart_garden.Protocol.Receive.{process_new_frame, dispatch, note_sender}
use smart_garden.Protocol.Link.{newest_frame, note_sender-config}

-- After `SubscribeEvents` of an enabled station on the radio, the station's frame of registration has
-- made the master's number and all four kinds of reports its settings, its scheduler has only noted the
-- contact, and its answer to the master, the last frame that it sends, reports these settings (or, when
-- it is built as a master itself, none).
pub subscribe_events-delivered :
    (e1 e2 : Env) (r : Reception) (m n : Node) (station : ℕ)
    → let st = m.config.load_short_station station e1.uninit_station in
      station < max_stations
      → is_enabled_station st ≡ true
      → is_radio st ≡ true
      → let (m1, sent) = subscribe_events e1 station m in
        let n1 = process_new_frame e2 r (newest_frame m1) n in
        (sent ≡ true)
        × (n1.config.evt_master_station_id ≡ my_station)
        × (n1.config.evt_master_flags ≡ report_all + 1)
        × (n1.system ≡ (note_sender e2 r my_station n).system)
        × (newest_frame n1
            ≡ header_bytes (make_header fcode_evtmaster_report 0 station my_station 5)
              ++ (word_bytes (if n.config.master then 0 else report_all + 1)
                  ++ ((if n.config.master then 0 else my_station) ∷ word_bytes 0)))
unfolding subscribe_events send_register_evtmaster send_network_packet process_new_frame dispatch
    message_evtmaster_set header_bytes make_header header_of evtmaster_set_bytes evtmaster_set_of
    send_evtmaster_report
subscribe_events-delivered e1 e2 r m n station lt en radio =
    let st = m.config.load_short_station station e1.uninit_station in
    let goal : Node × Bool → Type 0 = λ (x : Node × Bool).
      let n1 = process_new_frame e2 r (newest_frame x.0) n in
      (x.1 ≡ true)
      × (n1.config.evt_master_station_id ≡ my_station)
      × (n1.config.evt_master_flags ≡ report_all + 1)
      × (n1.system ≡ (note_sender e2 r my_station n).system)
      × (newest_frame n1
          ≡ header_bytes (make_header fcode_evtmaster_report 0 station my_station 5)
            ++ (word_bytes (if n.config.master then 0 else report_all + 1)
                ++ ((if n.config.master then 0 else my_station) ∷ word_bytes 0))) in
    let answered =
      ap
        (λ (c : Config).
          header_bytes (make_header fcode_evtmaster_report 0 station my_station 5)
          ++ (word_bytes (if c.master then 0 else report_all + 1)
              ++ ((if c.master then 0 else my_station) ∷ word_bytes 0)))
        (note_sender-config e2 r my_station n) in
    if_cases goal (leb max_stations station) _ _ (λ h. absurd (ground arith))
      (λ _.
        if_cases goal (not (is_enabled_station st) || not (is_radio st)) _ _
          (λ h. absurd (ground (arith, en, radio))) (λ _. (refl, refl, refl, refl, answered)))
