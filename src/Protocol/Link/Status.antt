-- ===== src/Protocol/Link/Status.antt =====
-- A report of a station's zones: `SendZonesReport` there, `MessageZonesReport` here.
use smart_garden.Prelude.{
  ℕ, zero, suc, ◌+◌, ◌^◌, ◌≤◌, ◌<◌, ◌≡◌, refl, sym, ap, ◌∙◌, subst, ◌⊎◌, inl, Bool, true, false,
  ◌&&◌, List, arith, ℕ_discrete, ltb, leb, ◌==◌, if◌then◌else◌, length, get_or, set, length-set,
  get_or-set, get_or-set_ne, u8, bit, set_bit, if_cases,
}
use smart_garden.Prelude.Bits.{bits_lem}
use smart_garden.Core.State.{Config, System, zone_state_running, zone_state_off}
use smart_garden.Core.Zones.{report_channels, get_zone_state}
use smart_garden.Protocol.Send.{zones_status, is_on}

-- What the sender knows of a channel.
abbrev pub is_channel_on : Config → System → ℕ → ℕ → Bool
is_channel_on c s start j = is_on (get_zone_state c (u8 (1 + j + start)) s)

-- The bit of channel `i` was set because it is on; channel `j` may be the same.
status_written :
    (i j : ℕ) (onj on b : Bool)
    → (i ≡ j → onj ≡ on)
    → on ≡ true
    → (if i == j then true else b) ≡ (if i == j && onj then true else b)
status_written i j onj on b same_on is_on1 = elim (ℕ_discrete i j) [
  | yes e ↦ ground (arith, same_on e)
  | no ne ↦ ground arith
]

-- It was left as it was because channel `i` is off.
status_kept :
    (i j : ℕ) (onj on b : Bool)
    → (i ≡ j → onj ≡ on)
    → on ≡ false
    → b ≡ (if i == j && onj then true else b)
status_kept i j onj on b same_on is_off = elim (ℕ_discrete i j) [
  | yes e ↦ ground (arith, same_on e)
  | no ne ↦ ground arith
]

module _ (c : Config) (s : System) (start j : ℕ) where
  -- One round of the loop.
  status_round :
      (i status : ℕ)
      → status < 256
      → i < 8
      → j < 8
      → let on = is_channel_on c s start i in
        let status1 = if on then u8 (set_bit status (2 ^ i)) else status in
        (status1 < 256)
        × (bit status1 j ≡ (if i == j && is_channel_on c s start j then true else bit status j))
  status_round i status a b d =
      let on = is_channel_on c s start i in
      let goal : ℕ → Type 0 = λ x.
        (x < 256)
        × (bit x j ≡ (if i == j && is_channel_on c s start j then true else bit status j)) in
      let same_on : i ≡ j → is_channel_on c s start j ≡ on =
        λ e. ap (is_channel_on c s start) (sym e) in
      let written = bits_lem status i j a b d in
      if_cases goal on (u8 (set_bit status (2 ^ i))) status
        (λ h.
          subst goal {x = set_bit status (2 ^ i)} {y = u8 (set_bit status (2 ^ i))}
            (omega (arith, written.2)) (written.2, written.0 ∙ status_written i j _ on _ same_on h))
        (λ h. (a, status_kept i j _ on _ same_on h))

  pub zones_status-bit :
      (i k status : ℕ)
      → status < 256
      → i + k ≤ 8
      → j < 8
      → let r = zones_status c s start i k status in
        (r < 256)
        × (bit r j ≡ (
            if leb i j && ltb j (i + k) && is_channel_on c s start j then true else bit status j))
  unfolding zones_status
  zones_status-bit i zero status a b d = ground arith
  zones_status-bit i (suc k) status a b d =
      let status1 = if is_channel_on c s start i then u8 (set_bit status (2 ^ i)) else status in
      let round = status_round i status a (omega arith) d in
      let rest = zones_status-bit (i + 1) k status1 round.0 (omega arith) d in
      (rest.0, rest.1 ∙ ground (arith, round.1))

module _ (start status : ℕ) where
  length-report_channels :
      (i k : ℕ) (zs : List ℕ) → length (report_channels start status i k zs) ≡ length zs
  unfolding report_channels
  length-report_channels i zero zs = refl
  length-report_channels i (suc k) zs =
      length-report_channels (i + 1) k _ ∙ length-set zs (start + i) _

  -- The cells before channel `i` and behind the last one keep.
  pub report_channels-other :
      (i k : ℕ) (zs : List ℕ) (x : ℕ)
      → (x < start + i) ⊎ (start + i + k ≤ x)
      → get_or (report_channels start status i k zs) x 0 ≡ get_or zs x 0
  unfolding report_channels
  report_channels-other i zero zs x h = refl
  report_channels-other i (suc k) zs x h =
      report_channels-other (i + 1) k _ x (ground arith)
      ∙ get_or-set_ne zs (start + i) x _ 0 (ground arith)

  pub report_channels-cell :
      (i k : ℕ) (zs : List ℕ) (j : ℕ)
      → i ≤ j
      → j < i + k
      → start + i + k ≤ length zs
      → get_or (report_channels start status i k zs) (start + j) 0
        ≡ (if bit status j then zone_state_running else zone_state_off)
  unfolding report_channels
  report_channels-cell i zero zs j a b l = absurd (omega arith)
  report_channels-cell i (suc k) zs j a b l =
      let v = if bit status i then zone_state_running else zone_state_off in
      let zs1 = set zs (start + i) v in
      elim (ℕ_discrete i j) [
        | yes e ↦
            report_channels-other (i + 1) k zs1 (start + j) (inl (omega arith))
            ∙ get_or-set zs (start + i) (start + j) v 0 (omega arith)
            ∙ ground (arith, e)
        | no ne ↦
            report_channels-cell (i + 1) k zs1 j (omega arith) (omega arith)
              (omega (arith, length-set zs (start + i) v))
      ]
