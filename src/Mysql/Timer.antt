-- ===== src/Mysql/Timer.antt =====
-- The timer (RTimer, Test00/rtimer.cpp) on its own: a stop watch on the performance counter.
use test.Prelude.{ℕ}
use test.Prelude.Tests.{◌==◌, if◌then◌else◌}
use test.Prelude.Int.{ℤ}

-- The performance counter of Windows, a parameter: `tick` reads it, and a read can move the clock;
-- `minus` is the difference of two `__int64`.
pub record Clock : Type 1 where
  pub World : Type 0
  pub frequency : World → ℕ × World
  pub tick : World → ℕ × World
  pub minus : ℕ → ℕ → ℤ

pub record Timer : Type 0 where
  pub ticks_per_second : ℕ
  pub start_tick : ℕ

-- A `double`, by the quotient that computes it.
pub data Seconds : Type 0 where
  zero_seconds : Seconds
  quotient : ℤ → ℕ → Seconds

module _ (c : Clock) where
  open c use {World, frequency, tick, minus}

  unfoldable pub construct : World → Timer × World
  construct w =
      let (f, w) = frequency w in
      let (t, w) = tick w in (record { ticks_per_second = f; start_tick = t }, w)

  unfoldable pub start_timer : Timer → World → Timer × World
  start_timer r w = let (t, w) = tick w in (record r { start_tick = t }, w)

  unfoldable pub stop_timer : Timer → Timer
  stop_timer r = record r { start_tick = 0 }

  unfoldable pub get_time : World → ℕ × World
  get_time w = tick w

  -- `GetElapsedTime(__int64)`.
  unfoldable pub get_elapsed_time_since : Timer → ℕ → World → Seconds × World
  get_elapsed_time_since r start w =
      let (t, w) = tick w in (quotient (minus t start) r.ticks_per_second, w)

  -- `GetElapsedTime()`.
  unfoldable pub get_elapsed_time : Timer → World → Seconds × World
  get_elapsed_time r w =
      if r.start_tick == 0
      then (zero_seconds, w)
      else (let (t, w) = tick w in (quotient (minus t r.start_tick) r.ticks_per_second, w))
