-- ===== src/Trace/Rows/Numbers.antt =====
-- What trace/trace.c reports of the numbers in a header, on a little-endian host.
use soml_apps.Common.{ℕ, ◌+◌, ◌*◌, ◌/◌, ◌%◌, ◌<◌, ◌≡◌, arith}
use soml_apps.Clib.Words.{little, swap16, swap32, htons}
use soml_apps.Trace.Rows.{
  IpHeader, TcpHeader, ip, tcp, Ntop, trace_oml_inject_ip, trace_oml_inject_tcp,
}

upper_half : (n : ℕ) → n < 4294967296 → swap16 (swap32 n % 65536) ≡ n / 65536
unfolding swap16 swap32
upper_half n h = omega arith

low_bits_lost : (n : ℕ) → n < 65536 → swap16 (swap16 n % 8192) ≡ n / 256 * 256 + n % 32
unfolding swap16
low_bits_lost n h = omega arith

swap16-swap16 : (n : ℕ) → n < 65536 → swap16 (swap16 n) ≡ n
unfolding swap16
swap16-swap16 n h = omega arith

-- The upper half of the sequence and the acknowledgement numbers is reported, as they are sent.
pub inject_tcp-upper :
    (pktid sport dport seq ack length : ℕ) (h : TcpHeader)
    → seq < 4294967296
    → ack < 4294967296
    → trace_oml_inject_tcp little pktid sport dport
        (record h { seq = swap32 seq; ack_seq = swap32 ack })
        length
      ≡ tcp pktid sport dport
          (record {
            seq = seq / 65536;
            ack_seq = ack / 65536;
            window = swap16 h.window;
            check = swap16 h.check;
            urg_ptr = swap16 h.urg_ptr;
          })
          length
unfolding trace_oml_inject_tcp htons
inject_tcp-upper pktid sport dport seq ack length h hs ha =
    rw (upper_half seq hs, upper_half ack ha)

-- The reported offset of a fragment keeps the flags and loses three bits of its lower byte.
pub inject_ip-offset :
    (ntop : Ntop) (pktid len id off sum length : ℕ) (h : IpHeader)
    → len < 65536
    → id < 65536
    → off < 65536
    → sum < 65536
    → trace_oml_inject_ip little ntop pktid
        (record h {
          ip_len = swap16 len;
          ip_id = swap16 id;
          ip_off = swap16 off;
          ip_sum = swap16 sum;
        })
        length
      ≡ ip pktid
          (record h { ip_len = len; ip_id = id; ip_off = off / 256 * 256 + off % 32; ip_sum = sum })
          (ntop.text h.ip_src)
          (ntop.text h.ip_dst)
          length
unfolding trace_oml_inject_ip htons
inject_ip-offset ntop pktid len id off sum length h hl hi ho hs =
    rw (swap16-swap16 len hl, swap16-swap16 id hi, low_bits_lost off ho, swap16-swap16 sum hs)
