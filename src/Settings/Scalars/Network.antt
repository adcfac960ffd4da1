-- ===== src/Settings/Scalars/Network.antt =====
-- IP addresses (as their four bytes), the weather station's name and the weather key.
use smart_garden.Prelude.{
  ℕ, zero, suc, ◌+◌, ◌-◌, ◌*◌, ◌/◌, ◌%◌, Bool, ◌&&◌, List, [], ◌∷◌, ltb, leb, ◌==◌, if◌then◌else◌,
  length, get_or, replicate, take, drop,
}
use smart_garden.Settings.Eeprom.{Eeprom}
use smart_garden.Settings.Eeprom.Bytes.{write_bytes, read_bytes}

-- `IPAddress` is a class of the Arduino core; only its four bytes are used.
pub record IpAddress : Type 0 where
  pub b0 : ℕ
  pub b1 : ℕ
  pub b2 : ℕ
  pub b3 : ℕ

abbrev pub ip_bytes : IpAddress → List ℕ
ip_bytes ip = ip.b0 ∷ ip.b1 ∷ ip.b2 ∷ ip.b3 ∷ []

-- `toHex`.
unfoldable pub to_hex : ℕ → ℕ
to_hex val =
    if leb b'0' val && leb val b'9'
    then val - b'0'
    else if leb b'A' val && leb val b'F'
    then val - b'A' + 10
    else if leb b'a' val && leb val b'f'
    then val - b'a' + 10
    else 0

-- A digit of `sprintf("%02x")`.
unfoldable pub hex_digit : ℕ → ℕ
hex_digit d = if ltb d 10 then b'0' + d else b'a' + (d - 10)

-- The pairs of digits of a key, packed; 16 characters make 8 bytes.
unfoldable pub pack_key : ℕ → List ℕ → List ℕ
unfolding to_hex
pack_key zero key = []
pack_key (suc n) key =
    (to_hex (get_or key 0 0) * 16 + to_hex (get_or key 1 0)) ∷ pack_key n (drop 2 key)

unfoldable pub print_key : List ℕ → List ℕ
unfolding hex_digit
print_key [] = []
print_key (b ∷ bs) = hex_digit (b / 16) ∷ hex_digit (b % 16) ∷ print_key bs

module _ (E : Eeprom) where
  open E use {Mem, read, write}

  unfoldable pub get_ip_at : Mem → ℕ → IpAddress
  get_ip_at m a = record {
    b0 = read m a;
    b1 = read m (a + 1);
    b2 = read m (a + 2);
    b3 = read m (a + 3);
  }

  unfoldable pub set_ip_at : Mem → ℕ → IpAddress → Mem
  set_ip_at m a ip = write_bytes E m a (ip_bytes ip)

  unfoldable pub get_ntp_ip : Mem → IpAddress
  unfolding get_ip_at
  get_ntp_ip m = get_ip_at m 20

  unfoldable pub set_ntp_ip : Mem → IpAddress → Mem
  unfolding set_ip_at
  set_ntp_ip m ip = set_ip_at m 20 ip

  unfoldable pub get_ip : Mem → IpAddress
  unfolding get_ip_at
  get_ip m = get_ip_at m 46

  unfoldable pub set_ip : Mem → IpAddress → Mem
  unfolding set_ip_at
  set_ip m ip = set_ip_at m 46 ip

  unfoldable pub get_netmask : Mem → IpAddress
  unfolding get_ip_at
  get_netmask m = get_ip_at m 50

  unfoldable pub set_netmask : Mem → IpAddress → Mem
  unfolding set_ip_at
  set_netmask m ip = set_ip_at m 50 ip

  unfoldable pub get_gateway : Mem → IpAddress
  unfolding get_ip_at
  get_gateway m = get_ip_at m 54

  unfoldable pub set_gateway : Mem → IpAddress → Mem
  unfolding set_ip_at
  set_gateway m ip = set_ip_at m 54 ip

  unfoldable pub get_wuip : Mem → IpAddress
  unfolding get_ip_at
  get_wuip m = get_ip_at m 62

  unfoldable pub set_wuip : Mem → IpAddress → Mem
  unfolding set_ip_at
  set_wuip m ip = set_ip_at m 62 ip

  -- `GetIsDHCP`: no address is configured.
  unfoldable pub get_is_dhcp : Mem → Bool
  unfolding get_ip
  get_is_dhcp m = let ip = get_ip m in ip.b0 == 0 && ip.b1 == 0 && ip.b2 == 0 && ip.b3 == 0

  unfoldable pub get_pws : Mem → List ℕ
  get_pws m = read_bytes E m 82 11

  -- The 11 bytes from the pointer on, also those behind the end of a shorter string.
  unfoldable pub set_pws : Mem → List ℕ → Mem
  set_pws m key = write_bytes E m 82 (take 11 key)

  unfoldable pub get_api_key : Mem → List ℕ
  get_api_key m = print_key (read_bytes E m 70 8)

  unfoldable pub set_api_key : Mem → List ℕ → Mem
  set_api_key m key =
      if length key == 16
      then write_bytes E m 70 (pack_key 8 key)
      else write_bytes E m 70 (replicate 8 0)
