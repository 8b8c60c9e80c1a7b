-- ===== src/Clock.antt =====
-- helpers.clocks.go: the clocks. `E` is the state of the environment, which tells the time.
use demo_redis.Prelude.{ℕ, Bool, true, Action, pure, ◌>>=◌, nat_eq}

-- `time.Time`: nanoseconds since the zero time, and whether it is shown in UTC or in local time.
pub record Time : Type 0 where
  pub nanos : ℕ
  pub utc : Bool

-- `time.Time{}`
abbrev pub zero_time : Time
zero_time = record { nanos = 0; utc = true }

-- `time.Time.IsZero`
unfoldable pub is_zero : Time → Bool
is_zero t = nat_eq t.nanos 0

-- `Clocker`
pub record Clocker (E : Type 0) : Type 0 where
  pub now : Action E Time
  pub zero : Time

-- `NewClock`, with `Now` and `Zero` of `Clock`; the first argument is `time.Now`.
unfoldable pub new_clock : {E : Type 0} → Action E ℕ → Bool → Clocker E
new_clock time_now is_prod = record {
  now = (do n ← time_now; pure (record { nanos = n; utc = is_prod }));
  zero = zero_time;
}

-- `NewTickClock`, with `Now` and `Zero` of `TickClock`, which pass on to the clock inside.
unfoldable pub new_tick_clock : {E : Type 0} → Clocker E → Clocker E
new_tick_clock ck = record { now = ck.now; zero = ck.zero }
