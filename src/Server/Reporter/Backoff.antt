-- ===== src/Server/Reporter/Backoff.antt =====
-- internal/server/reporter/reporter.go: the delays between the streams of `Run`.
use Prim.Native.Nat.{min}
use spectre.Prelude.{
  ℕ, zero, suc, ◌*◌, ◌/◌, ◌≤◌, ◌≡◌, refl, Bool, true, false, List, [], ◌∷◌, leb, leb→le, arith,
  Bool-cases, inl, inr, ap, ◌∙◌,
}
use spectre.Server.Reporter.{min_retry_delay, max_retry_delay, jitter, delay_after, next_delay}

-- How a stream ended: whether it failed, and how long it lasted.
pub record Ending : Type 0 where
  pub lost : Bool
  pub lasted : ℕ

-- The delay after some streams; `Run` begins with the least delay.
unfoldable pub delay_from : ℕ → List Ending → ℕ
delay_from delay [] = delay
delay_from delay (e ∷ endings) = delay_from (next_delay delay e.lost e.lasted) endings

abbrev pub IsDelay : ℕ → Type 0
IsDelay d = (min_retry_delay ≤ d) × (d ≤ max_retry_delay)

delay_after-IsDelay :
    (d : ℕ) (lost : Bool) (lasted : ℕ) → IsDelay d → IsDelay (delay_after d lost lasted)
unfolding delay_after
delay_after-IsDelay d lost lasted h = ground arith

next_delay-IsDelay :
    (d : ℕ) (lost : Bool) (lasted : ℕ) → IsDelay d → IsDelay (next_delay d lost lasted)
unfolding next_delay
next_delay-IsDelay d false lasted h = delay_after-IsDelay d false lasted h
next_delay-IsDelay d true lasted h =
    let (low, high) = delay_after-IsDelay d true lasted h in
    (omega (arith, low), omega (arith, low, high))

delay_from-IsDelay : (d : ℕ) (endings : List Ending) → IsDelay d → IsDelay (delay_from d endings)
unfolding delay_from
delay_from-IsDelay d [] h = h
delay_from-IsDelay d (e ∷ endings) h =
    delay_from-IsDelay (next_delay d e.lost e.lasted) endings
      (next_delay-IsDelay d e.lost e.lasted h)

jitter_bounds : (d random : ℕ) → (d / 2 ≤ jitter d random) × (jitter d random ≤ d)
unfolding jitter
jitter_bounds d random = (omega arith, omega arith)

-- Whatever streams came before, the wait before the next one is at least half the least delay and at
-- most the greatest.
pub wait_bounds :
    (endings : List Ending) (lost : Bool) (lasted random : ℕ)
    → (min_retry_delay / 2
        ≤ jitter (delay_after (delay_from min_retry_delay endings) lost lasted) random)
      × (jitter (delay_after (delay_from min_retry_delay endings) lost lasted) random
          ≤ max_retry_delay)
wait_bounds endings lost lasted random =
    let before = delay_from-IsDelay min_retry_delay endings (omega arith, omega arith) in
    let d = delay_after (delay_from min_retry_delay endings) lost lasted in
    let (low, high) = delay_after-IsDelay (delay_from min_retry_delay endings) lost lasted before in
    let (least, most) = jitter_bounds d random in
    (omega (arith, low, least), omega (arith, high, most))

-- `n` streams that fail at once.
abbrev pub failures : ℕ → List Ending
failures zero = []
failures (suc n) = record { lost = true; lasted = 0 } ∷ failures n

abbrev pub doubled : ℕ → ℕ → ℕ
doubled zero d = d
doubled (suc n) d = doubled n (d * 2)

doubled_more : (n d e : ℕ) → d ≤ e → doubled n d ≤ doubled n e
doubled_more zero d e h = h
doubled_more (suc n) d e h = doubled_more n (d * 2) (e * 2) (omega (arith, h))

grows : (n d : ℕ) → d ≤ doubled n d
grows zero d = omega arith
grows (suc n) d = omega (arith, grows n (d * 2))

next_delay-lost : (d : ℕ) → next_delay d true 0 ≡ min (d * 2) max_retry_delay
unfolding next_delay delay_after
next_delay-lost d = refl

cut :
    (n d : ℕ)
    → min (doubled n (min d max_retry_delay)) max_retry_delay ≡ min (doubled n d) max_retry_delay
cut n d = elim (Bool-cases (leb d max_retry_delay)) [
  | inl below ↦
      let same : min d max_retry_delay ≡ d = omega (arith, leb→le d max_retry_delay below) in
      rw same refl
  | inr above ↦
      let most : min d max_retry_delay ≡ max_retry_delay = ground (arith, above) in
      rw most (ground (arith, above, grows n d, grows n max_retry_delay))
]

backoff :
    (n d : ℕ) → d ≤ max_retry_delay → delay_from d (failures n) ≡ min (doubled n d) max_retry_delay
unfolding delay_from
backoff zero d h = omega (arith, h)
backoff (suc n) d h =
    let start : next_delay d true 0 ≡ min (d * 2) max_retry_delay = next_delay-lost d in
    let ih = backoff n (min (d * 2) max_retry_delay) (omega arith) in
    ap (λ x. delay_from x (failures n)) start ∙ ih ∙ cut n (d * 2)

-- After `n` streams that fail at once the delay is the least one doubled `n` times, cut to the
-- greatest.
pub backoff_lem :
    (n : ℕ)
    → delay_from min_retry_delay (failures n) ≡ min (doubled n min_retry_delay) max_retry_delay
backoff_lem n = backoff n min_retry_delay (omega arith)
