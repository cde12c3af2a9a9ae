-- ===== src/Otg/Generator.antt =====
-- The generators of otg2/lib/generator. Sizes, rates and times are natural numbers, times in whole
-- microseconds that are rounded down; the samples of random variables are arguments.
pub mod Rate
pub mod Burst
use soml_apps.Common.{
  ℕ, zero, suc, ◌+◌, ◌-◌, ◌*◌, ◌/◌, ◌≡◌, refl, ap, Bool, true, false, Option, none, some, ltb, leb,
  ◌==◌, if◌then◌else◌, arith,
}
use soml_apps.Common.Int.{pos}
use soml_apps.Clib.Text.{Bytes, codes, same_text}
use soml_apps.Otg.Packet.{Packet, set_payload_size}
use soml_apps.Otg.Packet.Sound.{IsSound}

pub record Cbr : Type 0 where
  pub pkt_size : ℕ
  pub pkt_interval : ℕ
  pub pkt_rate : ℕ
  pub last_pkt_stamp : ℕ

-- `CBR_Generator()`, with what memory holds for the last time
unfoldable pub new_cbr : ℕ → Cbr
new_cbr stamp = record {
  pkt_size = 512;
  pkt_interval = 1000000;
  pkt_rate = 4096;
  last_pkt_stamp = stamp;
}

-- `CBR_Generator::update`: `none` where it throws.
unfoldable pub cbr_update : Cbr → Option Cbr
cbr_update g =
    if g.pkt_rate == 0
    then none
    else some (record g { pkt_interval = 8000000 * g.pkt_size / g.pkt_rate })

unfoldable pub cbr_init : Cbr → Option Cbr
unfolding cbr_update
cbr_init g = cbr_update (record g { last_pkt_stamp = 0 })

pub record Expo : Type 0 where
  pub pkt_size : ℕ
  pub rate : ℕ
  pub ontime : ℕ
  pub offtime : ℕ
  pub rem : ℕ
  pub last_pkt_stamp : ℕ
  pub pkt_interval : ℕ
  pub off_mean : ℕ
  pub burst_mean : ℕ

-- Samples of the two exponential variables for a mean, in millionths.
pub record Samples : Type 0 where
  pub burst : ℕ → ℕ
  pub off : ℕ → ℕ

-- `Expo_Generator(size, rate, ontime, offtime)`, over what memory holds
unfoldable pub new_expo : Expo → ℕ → ℕ → ℕ → ℕ → Expo
new_expo g size rate ontime offtime = record g {
  pkt_size = size;
  rate = rate;
  ontime = ontime;
  offtime = offtime;
  rem = 0;
}

unfoldable pub expo_init : Expo → Expo
expo_init g = record g { last_pkt_stamp = 0; off_mean = g.offtime }

-- `rem_` and `lastPktStamp_` after the start of a burst, if there is one.
abbrev pub burst_of : ℕ → ℕ
burst_of sample = let n = (sample + 500000) / 1000000 in if n == 0 then 1 else n

unfoldable pub start_burst : Samples → Expo → Expo
start_burst s g =
    if g.rem == 0
    then record g {
      rem = burst_of (s.burst g.burst_mean);
      last_pkt_stamp = g.last_pkt_stamp + s.off g.off_mean;
    }
    else g

module _ (memory : ℕ → ℕ → ℕ) where
  unfoldable pub cbr_next_packet : Cbr → Packet → Cbr × Packet
  cbr_next_packet g p =
      let stamp = g.last_pkt_stamp + g.pkt_interval in
      (
        record g { last_pkt_stamp = stamp },
        record (set_payload_size memory g.pkt_size p) { tx_time = pos stamp },
      )

  -- The rate and the size are not 0.
  unfoldable pub expo_next_packet : Samples → Expo → Packet → Expo × Packet
  unfolding start_burst
  expo_next_packet s g p =
      let interval = 8000000 * g.pkt_size / g.rate in
      let h =
        start_burst s
          (record g { pkt_interval = interval; burst_mean = g.ontime * 1000000 / interval }) in
      let stamp = h.last_pkt_stamp + g.pkt_interval in
      (
        record h { rem = h.rem - 1; last_pkt_stamp = stamp },
        record (set_payload_size memory g.pkt_size p) { tx_time = pos stamp },
      )

-- `Generator::create`
pub data Kind : Type 0 where
  cbr expo : Kind

unfoldable pub create : Bytes → Option Kind
unfolding same_text
create name =
    if same_text name (codes "cbr")
    then some cbr
    else if same_text name (codes "expo")
    then some expo
    else none

-- A source that makes packets without end, in their buffers, and leaves the numbers to the stream.
pub record Generator (G : Type 0) : Type 0 where
  pub next : G → Packet → G × Packet
  pub same_flow : (g : G) (p : Packet) → (next g p).1.flow_id ≡ p.flow_id
  pub same_seq : (g : G) (p : Packet) → (next g p).1.seq_num ≡ p.seq_num
  pub sound : (g : G) (p : Packet) → IsSound p → IsSound (next g p).1
