-- ===== src/Otg/Socket/Init.antt =====
-- When the sender of otg2 is ready: `UDPOutPort::init` in otg2/lib/port.
use soml_apps.Common.{ℕ, ◌≡◌, true, some}
use soml_apps.Common.Int.{pos}
use soml_apps.Otg.Socket.{is_positive, System, Socket, set_sock_address, has_host}

-- What a port that has started knows.
abbrev pub Ready : System → Socket → Socket → Type 0
Ready sys s t =
    ((fd : ℕ) × (sys.socket ≡ some fd) × (t.sockfd ≡ pos fd))
    × ((a : ℕ × ℕ) × (set_sock_address sys s.localhost s.localport ≡ some a) × (sys.bind a ≡ true))
    × ((a : ℕ × ℕ) × (set_sock_address sys s.dsthost s.dstport ≡ some a) × (t.dst_address ≡ some a))
    × (has_host s.dsthost ≡ true)
    × (is_positive s.dstport ≡ true)
