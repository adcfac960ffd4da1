-- ===== src/Protocol/Reject.antt =====
-- Frames that `ProcessNewFrame` or a handler rejects.
use smart_garden.Prelude.{
  if_both, ◌∙◌, ℕ, ◌+◌, ◌*◌, ◌≡◌, refl, Bool, false, not, ◌&&◌, ◌||◌, List, arith, ◌==◌,
  if◌then◌else◌, if_true, if_cases,
}
use smart_garden.Core.State.{Env}
use smart_garden.Protocol.Wire.{
  header_of, range_of, fcode_zones_read, fcode_zones_set, fcode_zones_report, fcode_sensors_read,
  fcode_sensors_report, fcode_evtmaster_read, fcode_evtmaster_set, fcode_sysevt_report, fcode_ping,
  fcode_time_broadcast,
}
use smart_garden.Protocol.Node.{Node, Reception}
use smart_garden.Protocol.Report.{
  message_zones_report, message_sensors_report, message_time_broadcast,
}
use smart_garden.Protocol.Answer.{
  message_zones_read, message_zones_set, message_evtmaster_set, message_sensors_read, message_ping,
}
use smart_garden.Protocol.Log.{log_error, IsLogged, log_error-IsLogged}
use smart_garden.Protocol.Link.{note_sender-config, note_sender-system}
use smart_garden.Protocol.Receive.{is_frame, note_contact, note_sender, dispatch, process_new_frame}

-- The messages that a station acts on, by function code and length behind the header. A system event
-- and a question for the event master may have any length, a report of sensors has two bytes for each.
abbrev pub is_message : List ℕ → Bool
is_message f =
    let h = header_of f in
    let sized : ℕ → ℕ → Bool = λ code size. h.fcode == code && h.payload_length == size in
    sized fcode_zones_report 4
    || (sized fcode_sensors_report (2 + (range_of f).num * 2)
        || (h.fcode == fcode_sysevt_report
            || (sized fcode_ping 4
                || (sized fcode_time_broadcast 4
                    || (sized fcode_zones_read 2
                        || (sized fcode_zones_set 6
                            || (h.fcode == fcode_evtmaster_read
                                || (sized fcode_evtmaster_set 6
                                    || sized fcode_sensors_read 2))))))))

module _ (e : Env) (r : Reception) where
  dispatch-none : (f : List ℕ) (n : Node) → is_message f ≡ false → dispatch e r f n ≡ n
  unfolding dispatch message_zones_report message_sensors_report message_time_broadcast
      message_zones_read message_zones_set message_evtmaster_set message_sensors_read message_ping
  dispatch-none f n bad =
      let goal : Node → Type 0 = λ (x : Node). x ≡ n in
      let h = header_of f in
      let c = h.fcode in
      let skips : (size : ℕ) (y : Node)
          → (h.payload_length == size) ≡ false
          → goal (if not (h.payload_length == size) then n else y) =
        λ size y d. if_true (not (h.payload_length == size)) n y (ground (arith, d)) in
      if_cases goal (c == fcode_zones_report) _ _ (λ t. skips 4 _ (ground (arith, t, bad)))
        (λ n0.
          if_cases goal (c == fcode_sensors_report) _ _
            (λ t. skips (2 + (range_of f).num * 2) _ (ground (arith, t, bad)))
            (λ n1.
              if_cases goal (c == fcode_sysevt_report) _ _ (λ t. absurd (ground (arith, t, bad)))
                (λ n2.
                  if_cases goal (c == fcode_ping) _ _ (λ t. skips 4 _ (ground (arith, t, bad)))
                    (λ n3.
                      if_cases goal (c == fcode_time_broadcast) _ _
                        (λ t.
                          if_both goal n.config.master _ _ refl
                            (skips 4 _ (ground (arith, t, bad))))
                        (λ _.
                          if_cases goal (c == fcode_zones_read) _ _
                            (λ t. skips 2 _ (ground (arith, t, bad)))
                            (λ _.
                              if_cases goal (c == fcode_zones_set) _ _
                                (λ t. skips 6 _ (ground (arith, t, bad)))
                                (λ _.
                                  if_cases goal (c == fcode_evtmaster_read) _ _
                                    (λ t. absurd (ground (arith, t, bad)))
                                    (λ _.
                                      if_cases goal (c == fcode_evtmaster_set) _ _
                                        (λ t. skips 6 _ (ground (arith, t, bad)))
                                        (λ _.
                                          if_cases goal (c == fcode_sensors_read) _ _
                                            (λ t. skips 2 _ (ground (arith, t, bad)))
                                            (λ _. refl))))))))))

  note_sender-sensors : (from : ℕ) (n : Node) → (note_sender e r from n).sensors ≡ n.sensors
  unfolding note_sender
  note_sender-sensors from n =
      (log_error-IsLogged e r _).sensors
      ∙ if_both (λ (x : Node). x.sensors ≡ n.sensors) r.has_address _ _ refl refl

  -- A frame that fails the checks of `ProcessNewFrame` is only handed to the log of errors, which leaves
  -- settings, scheduler and sensors as they were. One that passes them but is no message with the length
  -- that its function code wants is only noted, its sender, the time and strength of the contact and the
  -- sender's address, with what the log makes of it: the settings and sensors stay, and of the
  -- scheduler's state only the table of contacts changes.
  pub process_new_frame-rejected :
      (f : List ℕ) (n : Node)
      → (is_frame f && is_message f) ≡ false
      → (process_new_frame e r f n
          ≡ (if is_frame f then note_sender e r (header_of f).from_unit_id n else log_error e r n))
        × IsLogged e r n (log_error e r n)
        × ((note_sender e r (header_of f).from_unit_id n).config ≡ n.config)
        × ((note_sender e r (header_of f).from_unit_id n).sensors ≡ n.sensors)
        × ((note_sender e r (header_of f).from_unit_id n).system
            ≡ note_contact e r (header_of f).from_unit_id n.system)
  unfolding process_new_frame
  process_new_frame-rejected f n bad = (
    ground (arith, dispatch-none f (note_sender e r (header_of f).from_unit_id n)),
    log_error-IsLogged e r n,
    note_sender-config e r (header_of f).from_unit_id n,
    note_sender-sensors (header_of f).from_unit_id n,
    note_sender-system e r (header_of f).from_unit_id n,
  )
