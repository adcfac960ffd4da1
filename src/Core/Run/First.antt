-- ===== src/Core/Run/First.antt =====
-- `first_zone`, the loop by which core.cpp finds the zone to run next.
use smart_garden.Prelude.{ℕ, zero, suc, ◌+◌, ◌≡◌, ◌≢◌, ◌≤◌, ◌<◌, List, none, some, arith, get_or}
use smart_garden.Core.Run.{first_zone}

-- The zone found is in the range, has a duration, and is the first such.
pub first_zone-some :
    (ds : List ℕ) (i n z : ℕ)
    → first_zone ds i n ≡ some z
    → (i ≤ z) × (z < i + n) × (get_or ds z 0 ≢ 0)
unfolding first_zone
first_zone-some ds i zero z h = absurd (cc)
first_zone-some ds i (suc n) z h = ground (arith, first_zone-some ds (i + 1) n z)

pub first_zone-first :
    (ds : List ℕ) (i n z j : ℕ) → first_zone ds i n ≡ some z → i ≤ j → j < z → get_or ds j 0 ≡ 0
unfolding first_zone
first_zone-first ds i zero z j h a b = absurd (cc)
first_zone-first ds i (suc n) z j h a b = ground (arith, first_zone-first ds (i + 1) n z j)

-- None is found only if no zone of the range has a duration.
pub first_zone-none :
    (ds : List ℕ) (i n j : ℕ) → first_zone ds i n ≡ none → i ≤ j → j < i + n → get_or ds j 0 ≡ 0
unfolding first_zone
first_zone-none ds i zero j h a b = absurd (omega arith)
first_zone-none ds i (suc n) j h a b = ground (arith, first_zone-none ds (i + 1) n j)
