-- ===== src/Wattsup/Report.antt =====
-- `report_packet_filter` of wattsup/wattsup.c: what a record injects into OML.
pub mod Samples
use soml_apps.Common.{
  ℕ, Bool, true, false, ◌||◌, Option, none, some, [], ◌∷◌, ◌==◌, if◌then◌else◌, get_elem?,
}
use soml_apps.Common.Int.{ℤ, negsuc}
use soml_apps.Clib.Run as R
use soml_apps.Clib.Run.{Run, ok, fault, demand}
use soml_apps.Clib.Text.{Bytes}
use soml_apps.Wattsup.Packet.{Packet, field_text}
use soml_apps.Wattsup.State.{
  World, State, Prog, power, cost, monthly, maxima, minima, meta, Double, injected,
  multiplier_value, ◌>>=◌, ◌>>◌, lift, get, act, when,
}

-- `'_' == *text`
abbrev pub is_blank : Bytes → Bool
is_blank [] = false
is_blank (c ∷ cs) = c == b'_'

-- FIELD_FROM_STRING: no value where the device sends `_`.
unfoldable pub field_from_string : State → Packet → ℕ → Run (Option Double)
unfolding field_text
field_from_string s p i = R.◌>>=◌ (field_text p i) (λ text.
    R.◌>>=◌ (demand (get_elem? s.fields i)) (λ f. ok (
      if is_blank text
      then none
      else some (s.world.multiply (s.world.strtod text) (multiplier_value s.world f.multiplier)))))

abbrev pub is_valid : Option Double → Bool
is_valid none = false
is_valid (some v) = true

abbrev pub or_nan : World → Option Double → Double
or_nan w none = w.nan
or_nan w (some v) = v

-- `isnan(v) ? -1 : (int) v`
abbrev pub integer_or_minus_one : World → Double → ℤ
integer_or_minus_one w v = if w.is_nan v then negsuc 0 else w.truncate v

unfoldable pub report_packet_filter : Packet → Prog (Unit {0})
unfolding field_from_string
report_packet_filter p = do
  s ← get
  let w = s.world
  watts ← lift (field_from_string s p 0)
  volts ← lift (field_from_string s p 1)
  amps ← lift (field_from_string s p 2)
  watt_hours ← lift (field_from_string s p 3)
  cents ← lift (field_from_string s p 4)
  mo_kwh ← lift (field_from_string s p 5)
  mo_cost ← lift (field_from_string s p 6)
  max_watts ← lift (field_from_string s p 7)
  max_volts ← lift (field_from_string s p 8)
  max_amps ← lift (field_from_string s p 9)
  min_watts ← lift (field_from_string s p 10)
  min_volts ← lift (field_from_string s p 11)
  min_amps ← lift (field_from_string s p 12)
  power_factor ← lift (field_from_string s p 13)
  duty_cycle ← lift (field_from_string s p 14)
  power_cycle ← lift (field_from_string s p 15)
  frequency ← lift (field_from_string s p 16)
  apparent_power ← lift (field_from_string s p 17)
  when
      (is_valid watts
        || is_valid volts
        || is_valid amps
        || is_valid watt_hours
        || is_valid frequency
        || is_valid apparent_power)
      (act (
        injected (
          power (or_nan w watts) (or_nan w volts) (or_nan w amps) (or_nan w watt_hours)
            (or_nan w frequency) (or_nan w apparent_power))))
  when (is_valid cents) (act (injected (cost (or_nan w cents))))
  when (is_valid mo_kwh || is_valid mo_cost)
      (act (injected (monthly (or_nan w mo_kwh) (or_nan w mo_cost))))
  when (is_valid max_watts || is_valid max_volts || is_valid max_amps)
      (act (injected (maxima (or_nan w max_watts) (or_nan w max_volts) (or_nan w max_amps))))
  when (is_valid min_watts || is_valid min_volts || is_valid min_amps)
      (act (injected (minima (or_nan w min_watts) (or_nan w min_volts) (or_nan w min_amps))))
  when (is_valid power_factor || is_valid duty_cycle || is_valid power_cycle) (
      act (
        injected (
          meta (integer_or_minus_one w (or_nan w power_factor))
            (integer_or_minus_one w (or_nan w duty_cycle))
            (integer_or_minus_one w (or_nan w power_cycle)))))
