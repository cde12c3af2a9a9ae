-- ===== src/Wattsup/ReadData/Reset.antt =====
-- The reset of the device in wattsup/wattsup.c returns, whatever the device answers.
use soml_apps.Common.{
  ℕ, suc, ◌≡◌, refl, Bool, true, false, not, ◌&&◌, Option, none, some, if◌then◌else◌, Bool-cases,
  inl, inr,
}
use soml_apps.Common.Int.{pos}
use soml_apps.Clib.Run.{Run, ok, fault, Status, success, is_failed}
use soml_apps.Wattsup.Packet.{Packet}
use soml_apps.Wattsup.Command.{encode}
use soml_apps.Wattsup.State.{State, ◌>>=◌, pure, act, when, slept}
use soml_apps.Wattsup.State.Returns.{
  Returns, bind, Keeps, Keeps-refl, Keeps-trans, Runs, Runs-bind, then-Runs, act-Runs, when-Runs,
}
use soml_apps.Wattsup.Device.{
  send, wu_write, next_write, wu_read, exchange, stop_log_packet, start_log_packet, clear_packet,
  wu_start_log, wu_clear,
}
use soml_apps.Wattsup.Device.Safe.{IsSized, IsFair, wu_read-Returns}
use soml_apps.Wattsup.ReadData.{wu_stop_log, reset_device}

-- What a write leaves.
record WriteResult (r : Packet × Status) (s t : State) : Type 0 where
  keeps : Keeps s t
  sized : IsSized r.0

-- A packet whose command fits.
record Encodes (p : Packet) : Type 0 where
  result : Packet
  encodes : encode p ≡ ok (result, success)
  sized : IsSized result

encoded : Packet → Run (Packet × Status) → Packet
encoded p (ok r) = r.0
encoded p fault = p

stop_log-Encodes : Encodes stop_log_packet
unfolding encode stop_log_packet encoded
stop_log-Encodes = record {
  result = encoded stop_log_packet (encode stop_log_packet);
  encodes = refl;
  sized = record { buf = refl; field = refl };
}

start_log-Encodes : Encodes start_log_packet
unfolding encode start_log_packet encoded
start_log-Encodes = record {
  result = encoded start_log_packet (encode start_log_packet);
  encodes = refl;
  sized = record { buf = refl; field = refl };
}

clear-Encodes : Encodes clear_packet
unfolding encode clear_packet encoded
clear-Encodes = record {
  result = encoded clear_packet (encode clear_packet);
  encodes = refl;
  sized = record { buf = refl; field = refl };
}

send-Returns :
    (p : Packet) (answer : Option ℕ) (s : State)
    → IsSized p
    → Returns (send p answer) s (λ r t. WriteResult r s t)
unfolding send
send-Returns p none s z = ((p, _), s, refl, record { keeps = Keeps-refl s; sized = z })
send-Returns p (some n) s z = (
  (p, success),
  _,
  refl,
  record {
    keeps = record { world = refl; settings = refl; fields = refl; tests = refl };
    sized = z;
  },
)

wu_write-Returns :
    (p : Packet) (s : State) → Encodes p → Returns (wu_write p) s (λ r t. WriteResult r s t)
unfolding wu_write next_write
wu_write-Returns p s e =
    let t = record s { writes_done = suc s.writes_done } in
    let (r, u, run, w) = send-Returns e.result (s.world.writes s.writes_done) t e.sized in
    (
      r,
      u,
      rw e.encodes run,
      record {
        keeps = record {
          world = w.keeps.world;
          settings = w.keeps.settings;
          fields = w.keeps.fields;
          tests = w.keeps.tests;
        };
        sized = w.sized;
      },
    )

-- A read of a packet with sized arrays, where the world is fair.
read-Runs : (p : Packet) (s : State) → IsSized p → IsFair s.world → Runs (wu_read p) s
read-Runs p s z fair = let (r, t, run, res) = wu_read-Returns p s z fair in (r, t, run, res.keeps)

pause-Runs : (b : Bool) (seconds : ℕ) (s : State) → Runs (when b (act (slept (pos seconds)))) s
pause-Runs b seconds s =
    when-Runs b (act (slept (pos seconds))) s (λ h. act-Runs (slept (pos seconds)) s)

exchange-Runs : (p : Packet) (s : State) → Encodes p → IsFair s.world → Runs (exchange true p) s
unfolding exchange
exchange-Runs p s e fair = bind (wu_write p) _ s (wu_write-Returns p s e) (λ r t w.
    elim (Bool-cases (is_failed r.1)) [
      | inl bad ↦ (r, t, rw bad refl, w.keeps)
      | inr good ↦
          let (q, u, run, k) =
            then-Runs (act (slept (pos 1))) (wu_read r.0) t (act-Runs (slept (pos 1)) t)
              (λ u l. read-Runs r.0 u w.sized (rw (l.world, w.keeps.world) fair)) in
          (q, u, rw good run, Keeps-trans w.keeps k)
    ])

wu_stop_log-Runs : (s : State) → IsFair s.world → s.settings.final ≡ false → Runs wu_stop_log s
unfolding wu_stop_log
wu_stop_log-Runs s fair off =
    Runs-bind (exchange true stop_log_packet) _ s
      (exchange-Runs stop_log_packet s stop_log-Encodes fair)
      (λ r t k.
        let no_print : (t.settings.final && not (is_failed r.1)) ≡ false =
          rw (k.settings, off) refl in
        (r.1, t, rw no_print refl, Keeps-refl t))

wu_clear-Runs : (s : State) → IsFair s.world → Runs wu_clear s
unfolding wu_clear
wu_clear-Runs s fair =
    bind (wu_write clear_packet) _ s (wu_write-Returns clear_packet s clear-Encodes) (λ r t w.
      let paused : Bool = if is_failed r.1 then false else true in
      let (a, u, run, k) =
        then-Runs (when paused (act (slept (pos 2)))) (do dropped ← wu_read r.0; pure r.1) t
          (pause-Runs paused 2 t)
          (λ u l.
            Runs-bind (wu_read r.0) (λ d. pure r.1) u
              (read-Runs r.0 u w.sized (rw (l.world, w.keeps.world) fair))
              (λ d v m. (r.1, v, refl, Keeps-refl v))) in
      (a, u, run, Keeps-trans w.keeps k))

wu_start_log-Runs : (s : State) → Runs wu_start_log s
unfolding wu_start_log
wu_start_log-Runs s =
    bind (wu_write start_log_packet) _ s (wu_write-Returns start_log_packet s start_log-Encodes)
      (λ r t w. elim (Bool-cases (is_failed r.1)) [
        | inl bad ↦ (r.1, t, rw bad refl, w.keeps)
        | inr good ↦
            let (a, u, run, k) =
              then-Runs (act (slept (pos 1))) (pure r.1) t (act-Runs (slept (pos 1)) t)
                (λ u l. (r.1, u, refl, Keeps-refl u)) in
            (a, u, rw good run, Keeps-trans w.keeps k)
      ])

-- The three requests of the reset, one after the other.
pub reset_device-Runs :
    (s : State) → IsFair s.world → s.settings.final ≡ false → Runs reset_device s
unfolding reset_device
reset_device-Runs s fair off =
    Runs-bind wu_stop_log (λ a. do b ← wu_clear; c ← wu_start_log; pure tt) s
      (wu_stop_log-Runs s fair off)
      (λ a t k.
        Runs-bind wu_clear (λ b. do c ← wu_start_log; pure tt) t (wu_clear-Runs t (rw k.world fair))
          (λ b u l.
            Runs-bind wu_start_log (λ c. pure tt) u (wu_start_log-Runs u)
              (λ c v m. (tt, v, refl, Keeps-refl v))))
