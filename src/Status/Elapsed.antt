-- ===== src/Status/Elapsed.antt =====
-- The time that the status shows: internal/engine/status/status.go.
use mirabilis.Base.{
  false, ℕ, zero, suc, ◌+◌, ◌-◌, ◌*◌, ◌/◌, ◌%◌, ◌≤◌, ◌<◌, ◌≡◌, refl, ltb, leb, arith, Bool-cases,
  inl, inr, if◌then◌else◌,
}
use mirabilis.Status.{
  Uptime, up_since_unknown, up_under_minute, up_minutes, up_hours, up_days, minute, hour, top_power,
  mantissa, whole_hours, uptime_of,
}

-- The power is among those that the fuel allows, and not above the number.
top_power-low : (fuel p q : ℕ) → p ≤ q → top_power fuel p q ≤ q
unfolding top_power
top_power-low zero p q h = h
top_power-low (suc fuel) p q h = ground (arith, h, top_power-low fuel (p * 2) q)

-- With the doublings that it allows written out.
abbrev doubled : ℕ → ℕ → ℕ
doubled zero p = p
doubled (suc fuel) p = doubled fuel (p * 2)

doubled-more : (fuel p : ℕ) → p ≤ doubled fuel p
doubled-more zero p = omega arith
doubled-more (suc fuel) p = omega (arith, doubled-more fuel (p * 2))

top_power-bound : (fuel p q : ℕ) → top_power fuel p q ≤ doubled fuel p
unfolding top_power
top_power-bound zero p q = omega arith
top_power-bound (suc fuel) p q =
    ground (arith, top_power-bound fuel (p * 2) q, doubled-more fuel (p * 2))

lowest-power : (q : ℕ) → top_power 22 1 q ≤ 4194304
lowest-power q = top_power-bound 22 1 q

-- Below 4096 hours the power is at most 2048.
top_power-small : (n fuel p q : ℕ) → doubled n p ≡ 2048 → q < 4096 → top_power fuel p q ≤ 2048
unfolding top_power
top_power-small n zero p q h k = omega (arith, h, doubled-more n p)
top_power-small zero (suc fuel) p q h k = ground (arith, h, k)
top_power-small (suc n) (suc fuel) p q h k =
    ground (arith, h, k, top_power-small n fuel (p * 2) q h k, doubled-more n (p * 2))

-- What a fraction lacks of one, in nanoseconds.
lacks_near :
    (r p : ℕ) → mantissa - (r * mantissa + hour / 2) / hour ≤ p → p ≤ 4194304 → hour ≤ r + 2000
lacks_near r p h k = omega (arith, h, k)

lacks_none : (r p : ℕ) → mantissa - (r * mantissa + hour / 2) / hour ≤ p → p ≤ 2048 → hour ≤ r
lacks_none r p h k = omega (arith, h, k)

-- The hours are rounded up within two microseconds of the next hour at most, and not below 4096.
whole_hours-near :
    (q r : ℕ)
    → r < hour
    → (q ≤ whole_hours q r)
      × ((whole_hours q r ≤ q + 1) × (whole_hours q r * hour ≤ q * hour + r + 2000))
unfolding whole_hours
whole_hours-near q r h =
    elim (Bool-cases (leb (mantissa - (r * mantissa + hour / 2) / hour) (top_power 22 1 q))) [
      | inl e ↦
          let close = lacks_near r (top_power 22 1 q) (ground (arith, e)) (lowest-power q) in
          rw e (omega arith, (omega arith, omega (arith, close)))
      | inr e ↦ rw e (omega arith, (omega arith, omega arith))
    ]

whole_hours-exact : (q r : ℕ) → r < hour → q < 4096 → whole_hours q r ≡ q
unfolding whole_hours
whole_hours-exact q r h k =
    elim (Bool-cases (leb (mantissa - (r * mantissa + hour / 2) / hour) (top_power 22 1 q))) [
      | inl e ↦
          let full =
            lacks_none r (top_power 22 1 q) (ground (arith, e))
              (top_power-small 11 22 1 q refl k) in
          absurd (omega (arith, full, h))
      | inr e ↦ rw e refl
    ]

-- How much before a day it may be shown: nothing below 4096 hours.
abbrev pub early : ℕ → ℕ
early d = if ltb d (4096 * hour) then 0 else 2000

-- What the shown time says of the time since the start: whole units that have passed, in the largest
-- unit of which one has.
abbrev pub IsElapsed : Uptime → ℕ → Type 0
IsElapsed up_since_unknown d = ⊥
IsElapsed up_under_minute d = d < minute
IsElapsed (up_minutes n) d = ((1 ≤ n) × (n < 60)) × ((n * minute ≤ d) × (d < suc n * minute))
IsElapsed (up_hours n) d = ((1 ≤ n) × (n < 24)) × ((n * hour ≤ d) × (d < suc n * hour))
IsElapsed (up_days n) d = (1 ≤ n) × ((n * (24 * hour) ≤ d + early d) × (d < suc n * (24 * hour)))

days-IsElapsed :
    (d : ℕ)
    → ltb d (24 * hour) ≡ false
    → IsElapsed (up_days (whole_hours (d / hour) (d % hour) / 24)) d
days-IsElapsed d c =
    let w = whole_hours (d / hour) (d % hour) in
    let (low, (high, near)) = whole_hours-near (d / hour) (d % hour) (omega arith) in
    elim (Bool-cases (ltb d (4096 * hour))) [
      | inl e ↦
          let same = whole_hours-exact (d / hour) (d % hour) (omega arith) (ground (arith, e)) in
          rw e (rw same (ground (arith, c)))
      | inr e ↦ rw e (ground (arith, c, low, high, near))
    ]

-- The shown time is the time since the start in whole minutes, hours or days, in the largest unit of
-- which one has passed. A day may be shown up to two microseconds before it has passed, since the hours
-- are floating-point numbers, but not below 4096 hours.
pub uptime_of-IsElapsed : (d : ℕ) → IsElapsed (uptime_of d) d
unfolding uptime_of
uptime_of-IsElapsed d = elim (Bool-cases (ltb d minute)) [
  | inl a ↦ rw a (ground (arith, a))
  | inr a ↦ elim (Bool-cases (ltb d hour)) [
    | inl b ↦ rw a (rw b (ground (arith, a, b)))
    | inr b ↦ elim (Bool-cases (ltb d (24 * hour))) [
      | inl c ↦
          let same = whole_hours-exact (d / hour) (d % hour) (omega arith) (ground (arith, c)) in
          rw a (rw b (rw c (rw same (ground (arith, b, c)))))
      | inr c ↦ rw a (rw b (rw c (days-IsElapsed d c)))
    ]
  ]
]
