-- ===== src/Otg/Clock/Pause.antt =====
-- A pause of the clock of otg2/lib/core/unixtime.cpp takes no time on it.
use soml_apps.Common.{ℕ, ◌+◌, ◌-◌, ◌≤◌, ◌≡◌, false, true, arith}
use soml_apps.Otg.Clock.{UnixTime, get_current_time, pause_clock, resume_clock}

-- A running clock that is paused stands still, cannot be paused again, and once resumed, which
-- succeeds, is behind a clock that was not paused by the length of the pause; the times come in
-- order.
pub resume_clock-pause_clock :
    (c : UnixTime) (paused_at seen_at resumed_at now : ℕ)
    → c.paused ≡ false
    → c.origin ≤ paused_at
    → paused_at ≤ resumed_at
    → resumed_at ≤ now
    → (let stopped = (pause_clock paused_at c).1 in
        let running = (resume_clock resumed_at stopped).1 in
        (get_current_time seen_at stopped ≡ get_current_time paused_at c)
        × (get_current_time now running + (resumed_at - paused_at) ≡ get_current_time now c)
        × ((resume_clock resumed_at stopped).0 ≡ true)
        × ((pause_clock seen_at stopped).0 ≡ false))
unfolding pause_clock resume_clock get_current_time
resume_clock-pause_clock c paused_at seen_at resumed_at now running h1 h2 h3 = ground arith
