-- ===== src/Otg/Socket.antt =====
-- The sockets of the UDP ports: otg2/lib/port/socket.cpp and `UDPOutPort::init`. The calls of the
-- system are arguments; an address is a number, 0 for INADDR_ANY.
pub mod Init
use soml_apps.Common.{
  ℕ, zero, suc, ◌-◌, ◌%◌, Bool, true, false, not, Option, none, some, List, [], ◌∷◌, ◌==◌,
  if◌then◌else◌,
}
use soml_apps.Common.Int.{ℤ, pos, negsuc, is_nat}
use soml_apps.Clib.Text.{Bytes}

-- What the system answers: a new socket, and the address of a name, from `inet_aton` or the DNS.
pub record System : Type 0 where
  pub socket : Option ℕ
  pub fcntl : Bool
  pub bind : ℕ × ℕ → Bool
  pub broadcast : Bool
  pub resolve : Bytes → Option ℕ

pub data Thrown : Type 0 where
  missing_host missing_port no_socket no_nonblocking no_bind no_broadcast unresolved : Thrown

pub record Socket : Type 0 where
  pub sockfd : ℤ
  pub nblockflag : ℕ
  pub bcastflag : ℕ
  pub localhost : Option Bytes
  pub localport : ℤ
  pub dsthost : Option Bytes
  pub dstport : ℤ
  pub dst_address : Option (ℕ × ℕ)

-- What a method leaves: the object, and the exception, if it threw one.
abbrev pub Result : Type 0
Result = Socket × Option Thrown

-- A port, cast to 16 bits.
abbrev pub port16 : ℤ → ℕ
port16 (pos n) = n % 65536
port16 (negsuc n) = 65535 - n % 65536

-- `port > 0`
abbrev pub is_positive : ℤ → Bool
is_positive (pos n) = not (n == 0)
is_positive (negsuc n) = false

-- `setSockAddress`: the address and the port, which is cast to 16 bits.
unfoldable pub set_sock_address : System → Option Bytes → ℤ → Option (ℕ × ℕ)
set_sock_address sys none port = some (0, port16 port)
set_sock_address sys (some []) port = some (0, port16 port)
set_sock_address sys (some (c ∷ cs)) port = elim (sys.resolve (c ∷ cs)) [
  | none ↦ none
  | some a ↦ some (a, port16 port)
]

-- `if (!test) throw e;`
abbrev pub require : Bool → Thrown → Socket → Result → Result
require true e s rest = rest
require false e s rest = (s, some e)

bound : System → Socket → Option (ℕ × ℕ) → Result
bound sys s none = (s, some unresolved)
bound sys s (some address) = require (sys.bind address) no_bind s (s, none)

opened : System → Socket → Option ℕ → Result
unfolding set_sock_address bound
opened sys s none = (record s { sockfd = negsuc 0 }, some no_socket)
opened sys s (some fd) =
    let t = record s { sockfd = pos fd } in
    require (if s.nblockflag == 1 then sys.fcntl else true) no_nonblocking t
      (bound sys t (set_sock_address sys s.localhost s.localport))

-- `Socket::init`
unfoldable pub init : System → Socket → Result
unfolding opened
init sys s = if is_nat s.sockfd 0 then opened sys s sys.socket else (s, none)

aimed : Socket → Option (ℕ × ℕ) → Result
aimed s none = (s, some unresolved)
aimed s (some address) = (record s { dst_address = some address }, none)

prepared : System → Result → Result
unfolding set_sock_address aimed
prepared sys (s, some e) = (s, some e)
prepared sys (s, none) =
    require (if s.bcastflag == 1 then sys.broadcast else true) no_broadcast s
      (aimed s (set_sock_address sys s.dsthost s.dstport))

unfoldable pub has_host : Option Bytes → Bool
has_host none = false
has_host (some []) = false
has_host (some (c ∷ cs)) = true

-- `UDPOutPort::init`
unfoldable pub udp_out_init : System → Socket → Result
unfolding prepared has_host init
udp_out_init sys s =
    let checked =
      require (has_host s.dsthost) missing_host s
        (require (is_positive s.dstport) missing_port s (prepared sys (init sys s))) in
    if is_nat s.sockfd 0 then checked else (s, none)

-- `UDPInPort::init`
unfoldable pub udp_in_init : System → Socket → Result
unfolding init
udp_in_init sys s = if is_nat s.sockfd 0 then init sys s else (s, none)
