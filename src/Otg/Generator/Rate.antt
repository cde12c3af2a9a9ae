-- ===== src/Otg/Generator/Rate.antt =====
-- The packets of `CBR_Generator`, in otg2/lib/generator/cbr_generator.cpp.
use soml_apps.Common.{ℕ, zero, suc, ◌+◌, ◌*◌, ◌/◌, ◌≡◌, ap, ◌∙◌, some, arith}
use soml_apps.Common.Int.{pos}
use soml_apps.Otg.Packet.{Packet}
use soml_apps.Otg.Packet.Sound.{set_payload_size_keeps, set_payload_size-IsSound}
use soml_apps.Otg.Generator.{Cbr, cbr_init, cbr_next_packet, Generator}

cbr_init_lem :
    (g h : Cbr)
    → cbr_init g ≡ some h
    → (h.pkt_size ≡ g.pkt_size)
      × (h.pkt_interval ≡ 8000000 * g.pkt_size / g.pkt_rate)
      × (h.last_pkt_stamp ≡ 0)
unfolding cbr_init
cbr_init_lem g h e = ground arith

module _ (memory : ℕ → ℕ → ℕ) where
  -- The generator after some packets.
  unfoldable pub cbr_after : ℕ → Packet → Cbr → Cbr
  unfolding cbr_next_packet
  cbr_after zero p g = g
  cbr_after (suc n) p g = (cbr_next_packet memory (cbr_after n p g) p).0

  cbr_after_lem :
      (n : ℕ) (p : Packet) (g : Cbr)
      → cbr_after n p g ≡ record g { last_pkt_stamp = g.last_pkt_stamp + n * g.pkt_interval }
  unfolding cbr_after
  cbr_after_lem zero p g = ap (λ t. record g { last_pkt_stamp = t }) (omega arith)
  cbr_after_lem (suc n) p g =
      rw (cbr_after_lem n p g) (ap (λ t. record g { last_pkt_stamp = t }) (grind arith))

  -- Every packet comes one interval behind the last, however the options set the interval.
  pub cbr_next_packet-init :
      (n : ℕ) (p : Packet) (g h : Cbr)
      → cbr_init g ≡ some h
      → (let made = cbr_next_packet memory (cbr_after n p h) p in
          (made.1.tx_time ≡ pos (suc n * (8000000 * g.pkt_size / g.pkt_rate)))
          × (made.1.size ≡ g.pkt_size))
  unfolding cbr_next_packet
  cbr_next_packet-init n p g h e =
      let (size, gap, start) = cbr_init_lem g h e in
      rw (cbr_after_lem n p h) (
        (rw (start, gap) (ap pos (grind arith))),
        (set_payload_size_keeps memory h.pkt_size p).3 ∙ size,
      )

-- The stream may use it as a generator.
abbrev pub cbr_generator : (memory : ℕ → ℕ → ℕ) → Generator Cbr
unfolding cbr_next_packet
cbr_generator memory = record {
  next = cbr_next_packet memory;
  same_flow = λ g p. (set_payload_size_keeps memory g.pkt_size p).0;
  same_seq = λ g p. (set_payload_size_keeps memory g.pkt_size p).1;
  sound = λ g p s.
      let q = set_payload_size-IsSound memory g.pkt_size s in
      record { fits = q.fits; allocated = q.allocated };
}
