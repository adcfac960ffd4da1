-- ===== src/Settings/Eeprom/Bytes.antt =====
-- The byte loops of the loaders and savers, and how they act together.
use smart_garden.Prelude.{
  ap₂, ℕ, zero, suc, ◌+◌, ◌%◌, ◌≤◌, ◌<◌, ◌≡◌, refl, ap, ◌∙◌, ◌⊎◌, inl, List, [], ◌∷◌, arith, ◌==◌,
  if◌then◌else◌, length, All,
}
use smart_garden.Settings.Eeprom.Laws.{Eeprom, eeprom_size}

abbrev pub AllBytes : List ℕ → Type 0
AllBytes = All (λ b. b < 256)

module _ (E : Eeprom) where
  open E use {Mem, read, write, read-write, read-lt}

  -- `for i: EEPROM.write(a + i, bytes[i])`.
  unfoldable pub write_bytes : Mem → ℕ → List ℕ → Mem
  write_bytes m a [] = m
  write_bytes m a (b ∷ bs) = write_bytes (write m a b) (a + 1) bs

  -- `for i < n: bytes[i] = EEPROM.read(a + i)`.
  unfoldable pub read_bytes : Mem → ℕ → ℕ → List ℕ
  read_bytes m a zero = []
  read_bytes m a (suc n) = read m a ∷ read_bytes m (a + 1) n

  pub read-write_bytes_out :
      (m : Mem) (a : ℕ) (bs : List ℕ) (c : ℕ)
      → AllBytes bs
      → a + length bs ≤ eeprom_size
      → (c < a) ⊎ (a + length bs ≤ c)
      → read (write_bytes m a bs) c ≡ read m c
  unfolding write_bytes
  read-write_bytes_out m a [] c h fit out = refl
  read-write_bytes_out m a (b ∷ bs) c h fit out =
      read-write_bytes_out (write m a b) (a + 1) bs c h.1 (omega arith) (omega arith)
      ∙ ground (arith, read-write m a c b)

  pub read_bytes-eq :
      (m m' : Mem) (a n : ℕ)
      → ((c : ℕ) → a ≤ c → c < a + n → read m c ≡ read m' c)
      → read_bytes m a n ≡ read_bytes m' a n
  unfolding read_bytes
  read_bytes-eq m m' a zero h = refl
  read_bytes-eq m m' a (suc n) h =
      ap₂ ◌∷◌ (h a (omega arith) (omega arith))
        (read_bytes-eq m m' (a + 1) n (λ c lo hi. h c (omega arith) (omega arith)))

  -- What was written is read back.
  pub read_bytes-write_bytes :
      (m : Mem) (a : ℕ) (bs : List ℕ)
      → AllBytes bs
      → a + length bs ≤ eeprom_size
      → read_bytes (write_bytes m a bs) a (length bs) ≡ bs
  unfolding read_bytes write_bytes
  read_bytes-write_bytes m a [] h fit = refl
  read_bytes-write_bytes m a (b ∷ bs) h fit =
      ap₂ ◌∷◌
        (read-write_bytes_out (write m a b) (a + 1) bs a h.1 (omega arith) (inl (omega arith))
          ∙ ground (arith, read-write m a a b))
        (read_bytes-write_bytes (write m a b) (a + 1) bs h.1 (omega arith))

  -- A run that does not meet the bytes written is read as before.
  pub read_bytes-write_bytes_out :
      (m : Mem) (a : ℕ) (bs : List ℕ) (c n : ℕ)
      → AllBytes bs
      → a + length bs ≤ eeprom_size
      → (c + n ≤ a) ⊎ (a + length bs ≤ c)
      → read_bytes (write_bytes m a bs) c n ≡ read_bytes m c n
  read_bytes-write_bytes_out m a bs c n h fit out =
      read_bytes-eq (write_bytes m a bs) m c n
        (λ d lo hi. read-write_bytes_out m a bs d h fit (omega arith))

  pub length-read_bytes : (m : Mem) (a n : ℕ) → length (read_bytes m a n) ≡ n
  unfolding read_bytes
  length-read_bytes m a zero = refl
  length-read_bytes m a (suc n) = ap suc (length-read_bytes m (a + 1) n)

  pub read_bytes-AllBytes : (m : Mem) (a n : ℕ) → AllBytes (read_bytes m a n)
  unfolding read_bytes
  read_bytes-AllBytes m a zero = tt
  read_bytes-AllBytes m a (suc n) = (read-lt m a, read_bytes-AllBytes m (a + 1) n)

-- A function of the address shows that the laws can be met.
unfoldable pub image_write : (ℕ → ℕ) → ℕ → ℕ → ℕ → ℕ
image_write m a v b = if a == b then v else m b

pub image_lt : (m : ℕ → ℕ) (a : ℕ) → m a % 256 < 256
image_lt m a = omega arith

pub image-read-write :
    (m : ℕ → ℕ) (a b v : ℕ)
    → a < eeprom_size
    → v < 256
    → image_write m a v b % 256 ≡ (if a == b then v else m b % 256)
unfolding image_write
image-read-write m a b v la lv = ground arith

abbrev pub image : Eeprom
image = record {
  Mem = ℕ → ℕ;
  read = λ m a. m a % 256;
  write = image_write;
  read-lt = λ m a. image_lt m a;
  read-write = λ m a b v la lv. image-read-write m a b v la lv;
}
