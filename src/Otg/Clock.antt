-- ===== src/Otg/Clock.antt =====
-- The clock that a stream can pause: otg2/lib/core/unixtime.cpp. Times are whole microseconds; the
-- system's clock does not go back, so no difference below is negative.
pub mod Pause
use soml_apps.Common.{
  ℕ, ◌+◌, ◌-◌, ◌*◌, ◌/◌, Bool, true, false, Option, none, some, ltb, leb, if◌then◌else◌,
}

pub record UnixTime : Type 0 where
  pub origin : ℕ
  pub abs_origin : ℕ
  pub pause_instant : ℕ
  pub paused : Bool

-- `setAbsoluteOrigin(hours)`: it changes nothing for no hours.
abbrev pub set_absolute_origin : ℕ → UnixTime → UnixTime
set_absolute_origin hours c =
    if ltb 0 hours then record c { abs_origin = hours * 3600000000 } else c

-- `UnixTime(externalcaliber)` over memory `c`, with `none` for -1: the origin is the day's start.
unfoldable pub new_clock : UnixTime → Option ℕ → ℕ → UnixTime
new_clock c none now =
    record (set_absolute_origin (now / 1000000 / 86400 * 24) (record c { origin = now })) {
      paused = false;
    }
new_clock c (some hours) now = record (set_absolute_origin hours (record c { origin = now })) {
  paused = false;
}

unfoldable pub get_absolute_time : ℕ → UnixTime → ℕ
get_absolute_time now c = now - c.abs_origin

unfoldable pub get_current_time : ℕ → UnixTime → ℕ
get_current_time now c = if c.paused then c.pause_instant else now - c.origin

-- Whether the clock was running, and the clock after it.
unfoldable pub pause_clock : ℕ → UnixTime → Bool × UnixTime
unfolding get_current_time
pause_clock now c =
    if c.paused
    then (false, c)
    else (true, record c { pause_instant = get_current_time now c; paused = true })

unfoldable pub resume_clock : ℕ → UnixTime → Bool × UnixTime
unfolding get_current_time
resume_clock now c =
    let running = record c { paused = false } in
    if c.paused
    then (
      true,
      record running { origin = c.origin + (get_current_time now running - c.pause_instant) },
    )
    else (false, c)

-- How long `waitAt(timestamp)` sleeps.
unfoldable pub wait_at : ℕ → ℕ → UnixTime → ℕ
unfolding get_current_time
wait_at now timestamp c =
    let x = get_current_time now c in if ltb x timestamp then timestamp - x else 0
