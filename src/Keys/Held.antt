-- ===== src/Keys/Held.antt =====
-- A key that is held down is reported once, after the debounce delay.
use smart_garden.Prelude.{
  ℕ, ◌+◌, ◌^◌, ◌≤◌, ◌<◌, ◌≡◌, refl, ap, ◌∙◌, ◌≢◌, List, [], ◌∷◌, arith, ltb, if◌then◌else◌, ltb→lt,
  length, replicate, All, if_cases,
}
use smart_garden.Keys.{Keys, get_button_async, button_none, key_debounce_delay}

-- What the polls at these times return while the key stays the same.
unfoldable pub polls : ℕ → ℕ → List ℕ → Keys → List ℕ
polls mode key [] k = []
polls mode key (t ∷ ts) k = let (k1, r) = get_button_async mode t key k in r ∷ polls mode key ts k1

-- The key at the first poll that comes late enough, and nothing at the others.
unfoldable pub report_once : ℕ → ℕ → List ℕ → List ℕ
report_once key start [] = []
report_once key start (t ∷ ts) =
    let rest = report_once key start ts in
    if ltb t (start + key_debounce_delay)
    then button_none ∷ rest
    else key ∷ replicate (length ts) button_none

-- A time after the press, before the millisecond counter comes round.
abbrev pub IsLater : ℕ → ℕ → Type 0
IsLater start t = (start ≤ t) × (t < 2 ^ 32)

-- The three steps of a key that is held.
module _ (mode key t : ℕ) (k : Keys) where
  accepted_step :
      mode ≢ 1 → k.state ≡ 2 → k.oldkey ≡ key → get_button_async mode t key k ≡ (k, button_none)
  unfolding get_button_async
  accepted_step basic s o = ground (arith, s, o)

  early_step :
      (start : ℕ)
      → k.state ≡ 1
      → k.old_millis ≡ start
      → IsLater start t
      → t < start + key_debounce_delay
      → get_button_async mode t key k ≡ (k, button_none)
  unfolding get_button_async
  early_step start s m h lt = ground (arith, s, m)

  late_step :
      (start : ℕ)
      → k.state ≡ 1
      → k.oldkey ≡ key
      → k.old_millis ≡ start
      → IsLater start t
      → start + key_debounce_delay ≤ t
      → get_button_async mode t key k ≡ (record k { state = 2 }, key)
  unfolding get_button_async
  late_step start s o m h le = ground (arith, s, o, m)

  press_step :
      k.state ≡ 0
      → key ≢ button_none
      → get_button_async mode t key k
        ≡ (record k { state = 1; oldkey = key; old_millis = t }, button_none)
  unfolding get_button_async
  press_step s ne = ground (arith, s)

-- The first poll, by what it does.
polls-step :
    (mode key t : ℕ) (ts : List ℕ) (k : Keys) (x : Keys × ℕ)
    → get_button_async mode t key k ≡ x
    → polls mode key (t ∷ ts) k ≡ x.1 ∷ polls mode key ts x.0
unfolding polls
polls-step mode key t ts k x e = ap (λ (y : Keys × ℕ). y.1 ∷ polls mode key ts y.0) e

polls-accepted :
    (mode key : ℕ) (ts : List ℕ) (k : Keys)
    → mode ≢ 1
    → k.state ≡ 2
    → k.oldkey ≡ key
    → polls mode key ts k ≡ replicate (length ts) button_none
unfolding polls
polls-accepted mode key [] k basic s o = refl
polls-accepted mode key (t ∷ ts) k basic s o =
    polls-step mode key t ts k (k, button_none) (accepted_step mode key t k basic s o)
    ∙ ap (λ l. button_none ∷ l) (polls-accepted mode key ts k basic s o)

polls-waiting :
    (mode key start : ℕ) (ts : List ℕ) (k : Keys)
    → mode ≢ 1
    → k.state ≡ 1
    → k.oldkey ≡ key
    → k.old_millis ≡ start
    → All (IsLater start) ts
    → polls mode key ts k ≡ report_once key start ts
unfolding polls report_once
polls-waiting mode key start [] k basic s o m h = refl
polls-waiting mode key start (t ∷ ts) k basic s o m h =
    if_cases (λ l. polls mode key (t ∷ ts) k ≡ l) (ltb t (start + key_debounce_delay)) _ _
      (λ early.
        polls-step mode key t ts k (k, button_none)
          (early_step mode key t k start s m h.0 (ltb→lt _ _ early))
        ∙ ap (λ l. button_none ∷ l) (polls-waiting mode key start ts k basic s o m h.1))
      (λ late.
        polls-step mode key t ts k (record k { state = 2 }, key)
          (late_step mode key t k start s o m h.0 (ground (arith, late)))
        ∙ ap (λ l. key ∷ l) (polls-accepted mode key ts (record k { state = 2 }) basic refl o))

-- In every mode but that of auto-repeat, and when no key was down: a key that goes down at one poll and is the same at the polls that follow,
-- all before the millisecond counter comes round, is reported by the first of those that comes at
-- least 50 ms after it, once: every other poll returns no key.
pub key_held_lem :
    (mode key start : ℕ) (ts : List ℕ) (k : Keys)
    → mode ≢ 1
    → k.state ≡ 0
    → key ≢ button_none
    → All (IsLater start) ts
    → polls mode key (start ∷ ts) k ≡ button_none ∷ report_once key start ts
key_held_lem mode key start ts k basic s ne h =
    let k1 = record k { state = 1; oldkey = key; old_millis = start } in
    polls-step mode key start ts k (k1, button_none) (press_step mode key start k s ne)
    ∙ ap (λ l. button_none ∷ l) (polls-waiting mode key start ts k1 basic refl refl refl h)
