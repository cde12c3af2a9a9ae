-- ===== src/Otg/Generator/Burst.antt =====
-- The bursts of `Expo_Generator`, in otg2/lib/generator/expo_generator.cpp.
use soml_apps.Common.{
  ℕ, zero, suc, ◌+◌, ◌*◌, ◌/◌, ◌<◌, ◌≡◌, refl, ap, ◌∙◌, sym, true, false, ◌==◌, arith,
}
use soml_apps.Otg.Packet.{Packet}
use soml_apps.Otg.Packet.Sound.{set_payload_size_keeps, set_payload_size-IsSound}
use soml_apps.Otg.Generator.{Expo, Samples, burst_of, expo_next_packet, Generator}

-- The time between the packets of a burst.
abbrev pub interval : Expo → ℕ
interval g = 8000000 * g.pkt_size / g.rate

module _ (memory : ℕ → ℕ → ℕ) (s : Samples) (p : Packet) where
  unfoldable pub expo_after : ℕ → Expo → Expo
  unfolding expo_next_packet
  expo_after zero g = g
  expo_after (suc n) g = expo_after n (expo_next_packet memory s g p).0

  -- Inside a burst.
  step_inside :
      (k : ℕ) (g : Expo)
      → g.rem ≡ suc k
      → (let h = (expo_next_packet memory s g p).0 in
          (h.rem ≡ k)
          × (h.last_pkt_stamp ≡ g.last_pkt_stamp + g.pkt_interval)
          × (h.pkt_interval ≡ interval g)
          × (interval h ≡ interval g))
  unfolding expo_next_packet
  step_inside k g e =
      let going : (g.rem == 0) ≡ false = ground arith in
      rw going (omega (arith, e), refl, refl, refl)

  expo_after_lem :
      (k : ℕ) (g : Expo)
      → g.rem ≡ k
      → g.pkt_interval ≡ interval g
      → ((expo_after k g).rem ≡ 0)
        × ((expo_after k g).last_pkt_stamp ≡ g.last_pkt_stamp + k * interval g)
  unfolding expo_after
  expo_after_lem zero g e same = (e, omega arith)
  expo_after_lem (suc k) g e same =
      let h = (expo_next_packet memory s g p).0 in
      let (left, stamp, gap, next_gap) = step_inside k g e in
      let (done, total) = expo_after_lem k h left (gap ∙ sym next_gap) in
      (done, total ∙ rw (stamp, next_gap, same) (grind arith))

  -- The generator with the burst drawn.
  abbrev drawn : Expo → Expo
  drawn g = record g {
    rem = burst_of (s.burst (g.ontime * 1000000 / interval g));
    last_pkt_stamp = g.last_pkt_stamp + s.off g.off_mean;
  }

  burst_of_pos : (sample : ℕ) → 0 < burst_of sample
  burst_of_pos sample = ground arith

  step_drawn :
      (g : Expo)
      → g.rem ≡ 0
      → (expo_next_packet memory s g p).0 ≡ (expo_next_packet memory s (drawn g) p).0
  unfolding expo_next_packet
  step_drawn g e =
      let n = burst_of (s.burst (g.ontime * 1000000 / interval g)) in
      let over : (g.rem == 0) ≡ true = ground arith in
      let going : (n == 0) ≡ false =
        ground (arith, burst_of_pos (s.burst (g.ontime * 1000000 / interval g))) in
      rw (over, going)

  expo_after-drawn :
      (g : Expo) → g.rem ≡ 0 → (n : ℕ) → 0 < n → expo_after n g ≡ expo_after n (drawn g)
  unfolding expo_after
  expo_after-drawn g e zero h = elim h [ ]
  expo_after-drawn g e (suc n) h = ap (expo_after n) (step_drawn g e)

  -- From one burst to the next: the idle time is taken once.
  pub expo_after-burst :
      (g : Expo)
      → g.rem ≡ 0
      → g.pkt_interval ≡ interval g
      → (let n = burst_of (s.burst (g.ontime * 1000000 / interval g)) in
          (0 < n)
          × ((expo_after n g).rem ≡ 0)
          × ((expo_after n g).last_pkt_stamp
              ≡ g.last_pkt_stamp + s.off g.off_mean + n * interval g))
  unfolding expo_after
  expo_after-burst g e same =
      let n = burst_of (s.burst (g.ontime * 1000000 / interval g)) in
      let pos_n : 0 < n = burst_of_pos (s.burst (g.ontime * 1000000 / interval g)) in
      let (done, total) = expo_after_lem n (drawn g) refl same in
      rw (expo_after-drawn g e n pos_n) (pos_n, done, total)

abbrev pub expo_generator : (memory : ℕ → ℕ → ℕ) (s : Samples) → Generator Expo
unfolding expo_next_packet
expo_generator memory s = record {
  next = expo_next_packet memory s;
  same_flow = λ g p. (set_payload_size_keeps memory g.pkt_size p).0;
  same_seq = λ g p. (set_payload_size_keeps memory g.pkt_size p).1;
  sound = λ g p s.
      let q = set_payload_size-IsSound memory g.pkt_size s in
      record { fits = q.fits; allocated = q.allocated };
}
