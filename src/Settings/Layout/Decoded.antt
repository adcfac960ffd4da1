-- ===== src/Settings/Layout/Decoded.antt =====
-- What the bytes of a slot are decoded to is a schedule whose fields fit.
use smart_garden.Prelude.{
  ℕ, zero, suc, ◌+◌, ◌-◌, ◌*◌, ◌≤◌, ◌<◌, ◌≡◌, refl, ap, List, [], ◌∷◌, arith, length, get_or, take,
  drop, All, All-get_or, i16,
}
use smart_garden.Settings.Eeprom.Bytes.{AllBytes}
use smart_garden.Settings.Layout.{decode_schedule, decode_times}
use smart_garden.Settings.Layout.Inverse.{IsField, IsShort, IsSchedule}

length-drop : (n : ℕ) (xs : List ℕ) → length (drop n xs) ≡ length xs - n
length-drop zero xs = omega arith
length-drop (suc n) [] = omega arith
length-drop (suc n) (x ∷ xs) = omega (arith, length-drop n xs)

length-take : (n : ℕ) (xs : List ℕ) → n ≤ length xs → length (take n xs) ≡ n
length-take zero xs h = refl
length-take (suc n) [] h = absurd (omega arith)
length-take (suc n) (x ∷ xs) h = ap suc (length-take n xs (omega arith))

All-drop : (n : ℕ) (xs : List ℕ) → AllBytes xs → AllBytes (drop n xs)
All-drop zero xs h = h
All-drop (suc n) [] h = tt
All-drop (suc n) (x ∷ xs) h = All-drop n xs h.1

All-take : (n : ℕ) (xs : List ℕ) → AllBytes xs → AllBytes (take n xs)
All-take zero xs h = tt
All-take (suc n) [] h = tt
All-take (suc n) (x ∷ xs) h = (h.0, All-take n xs h.1)

IsShort-i16 : (n : ℕ) → n < 65536 → IsShort (i16 n)
IsShort-i16 n lt = ground arith

byte_at : (bs : List ℕ) (i : ℕ) → AllBytes bs → get_or bs i 0 < 256
byte_at bs i h = All-get_or (λ b. b < 256) bs i 0 h (omega arith)

length-decode_times : (n : ℕ) (bs : List ℕ) → length (decode_times n bs) ≡ n
unfolding decode_times
length-decode_times zero bs = refl
length-decode_times (suc n) bs = ap suc (length-decode_times n (drop 2 bs))

decode_times-IsShort : (n : ℕ) (bs : List ℕ) → AllBytes bs → All IsShort (decode_times n bs)
unfolding decode_times
decode_times-IsShort zero bs h = tt
decode_times-IsShort (suc n) bs h = (
  IsShort-i16 (get_or bs 0 0 + 256 * get_or bs 1 0) (omega (arith, byte_at bs 0 h, byte_at bs 1 h)),
  decode_times-IsShort n (drop 2 bs) (All-drop 2 bs h),
)

pub decode_schedule-IsSchedule : (bs : List ℕ) → IsField 94 bs → IsSchedule (decode_schedule bs)
unfolding decode_schedule
decode_schedule-IsSchedule bs h = record {
  flags = byte_at bs 0 h.1;
  day = byte_at bs 1 h.1;
  name = (
    length-take 20 (drop 2 bs) (omega (arith, length-drop 2 bs, h.0)),
    All-take 20 (drop 2 bs) (All-drop 2 bs h.1),
  );
  times = length-decode_times 4 (drop 22 bs);
  shorts = decode_times-IsShort 4 (drop 22 bs) (All-drop 22 bs h.1);
  zone_duration = (omega (arith, length-drop 30 bs, h.0), All-drop 30 bs h.1);
}
