-- ===== src/Forms/General.antt =====
-- `SetSettings` on the pairs of a form, and `decodeIP`.
use smart_garden.Prelude.{
  ℕ, zero, suc, Bool, true, List, [], ◌∷◌, ◌==◌, if◌then◌else◌, length, get_or, drop, ℤ, u8, u8_of,
  u16_of,
}
use smart_garden.Prelude.Text.{same_text}
use smart_garden.Settings.Eeprom.{Eeprom}
use smart_garden.Settings.Scalars.Words.{set_web_port, set_zip}
use smart_garden.Settings.Scalars.Flags.{set_seasonal_adjust, set_ntp_offset, set_use_pws}
use smart_garden.Settings.Scalars.Network.{
  IpAddress, set_ip, set_netmask, set_gateway, set_wuip, set_ntp_ip, set_api_key, set_pws,
}
use smart_garden.Settings.Scalars.Hardware.{set_ot}
use smart_garden.LocalBoard.{Boards}
use smart_garden.Forms.Pairs.{KvPairs}

abbrev pub text_ip : List ℕ
text_ip = b'i' ∷ b'p' ∷ []

abbrev pub text_netmask : List ℕ
text_netmask = b'n' ∷ b'e' ∷ b't' ∷ b'm' ∷ b'a' ∷ b's' ∷ b'k' ∷ []

abbrev pub text_gateway : List ℕ
text_gateway = b'g' ∷ b'a' ∷ b't' ∷ b'e' ∷ b'w' ∷ b'a' ∷ b'y' ∷ []

abbrev pub text_wuip : List ℕ
text_wuip = b'w' ∷ b'u' ∷ b'i' ∷ b'p' ∷ []

abbrev pub text_apikey : List ℕ
text_apikey = b'a' ∷ b'p' ∷ b'i' ∷ b'k' ∷ b'e' ∷ b'y' ∷ []

abbrev pub text_zip : List ℕ
text_zip = b'z' ∷ b'i' ∷ b'p' ∷ []

abbrev pub text_ntpip : List ℕ
text_ntpip = b'N' ∷ b'T' ∷ b'P' ∷ b'i' ∷ b'p' ∷ []

abbrev pub text_ntpoffset : List ℕ
text_ntpoffset = b'N' ∷ b'T' ∷ b'P' ∷ b'o' ∷ b'f' ∷ b'f' ∷ b's' ∷ b'e' ∷ b't' ∷ []

abbrev pub text_ot : List ℕ
text_ot = b'o' ∷ b't' ∷ []

abbrev pub text_webport : List ℕ
text_webport = b'w' ∷ b'e' ∷ b'b' ∷ b'p' ∷ b'o' ∷ b'r' ∷ b't' ∷ []

abbrev pub text_sadj : List ℕ
text_sadj = b's' ∷ b'a' ∷ b'd' ∷ b'j' ∷ []

abbrev pub text_pws : List ℕ
text_pws = b'p' ∷ b'w' ∷ b's' ∷ []

abbrev pub text_wutype : List ℕ
text_wutype = b'w' ∷ b'u' ∷ b't' ∷ b'y' ∷ b'p' ∷ b'e' ∷ []

-- The C library's `strtoul` with the text behind the number, and `INADDR_NONE` of the network library.
module _ (strtoul : List ℕ → ℕ × List ℕ) (inaddr_none : IpAddress) where
  -- The loop of `decodeIP` for `k` more numbers, which ends where no dot follows.
  unfoldable pub octets : ℕ → List ℕ → List ℕ
  octets zero text = []
  octets (suc k) text =
      let (v, rest) = strtoul text in
      let more = octets k (drop 1 rest) in u8 v ∷ (if get_or rest 0 0 == b'.' then more else [])

  unfoldable pub decode_ip : List ℕ → IpAddress
  unfolding octets
  decode_ip value =
      let ip = octets 4 value in
      if length ip == 4
      then record { b0 = get_or ip 0 0; b1 = get_or ip 1 0; b2 = get_or ip 2 0; b3 = get_or ip 3 0 }
      else inaddr_none

  module _ (E : Eeprom) (atoi : List ℕ → ℤ) where
    open E use {Mem}

    -- The EEPROM, the boards, which a new output type sets up, and the request to the time client.
    pub record General : Type 0 where
      pub mem : Mem
      pub boards : Boards
      pub check_time : Bool

    -- The body of the loop of `SetSettings` for one pair.
    unfoldable pub set_setting : List ℕ → List ℕ → General → General
    unfolding decode_ip
    set_setting key value g =
        let m = g.mem in
        let ip = decode_ip value in
        let (m1, b1) = set_ot E (u8_of (atoi value)) m g.boards in
        let is : List ℕ → Bool = λ text. same_text key text in
        if is text_ip
        then record g { mem = set_ip E m ip }
        else if is text_netmask
        then record g { mem = set_netmask E m ip }
        else if is text_gateway
        then record g { mem = set_gateway E m ip }
        else if is text_wuip
        then record g { mem = set_wuip E m ip }
        else if is text_apikey
        then record g { mem = set_api_key E m value }
        else if is text_zip
        then record g { mem = set_zip E m (strtoul value).0 }
        else if is text_ntpip
        then record g { mem = set_ntp_ip E m ip }
        else if is text_ntpoffset
        then record g { mem = set_ntp_offset E m (atoi value); check_time = true }
        else if is text_ot
        then record g { mem = m1; boards = b1 }
        else if is text_webport
        then record g { mem = set_web_port E m (u16_of (atoi value)) }
        else if is text_sadj
        then record g { mem = set_seasonal_adjust E m (u8_of (atoi value)) }
        else if is text_pws
        then record g { mem = set_pws E m value }
        else if is text_wutype
        then record g { mem = set_use_pws E m (same_text value text_pws) }
        else g

    -- The loop.
    unfoldable pub set_settings : KvPairs → General → General
    unfolding set_setting
    set_settings [] g = g
    set_settings (p ∷ ps) g = set_settings ps (set_setting p.0 p.1 g)
