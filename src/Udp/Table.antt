-- ===== src/Udp/Table.antt =====
-- The table of clients: sockaddr_equal and lookup_client_info of udp_comms.c.
pub mod Lookup
use jpl_vision.Common.{
  ℕ, zero, suc, ◌+◌, Bool, true, false, ◌&&◌, Option, none, some, leb, ◌==◌, if◌then◌else◌,
}
use jpl_vision.Common.Memory.{Array}
use jpl_vision.Common.Int.{ℤ, pos, negsuc, int64_min, int64_max}
use jpl_vision.Udp.Types.{
  SockAddr, inet, inet6, other, ClientInfo, UdpComms, max_clients, with_client,
}

-- The code compares the address of `sa` with itself, and the ports of both.
unfoldable pub sockaddr_equal : SockAddr → SockAddr → Bool
sockaddr_equal (inet a port_a) (inet b port_b) = a == a && port_a == port_b
sockaddr_equal (inet a port_a) (inet6 b port_b) = false
sockaddr_equal (inet a port_a) (other family_b) = false
sockaddr_equal (inet6 a port_a) (inet b port_b) = false
sockaddr_equal (inet6 a port_a) (inet6 b port_b) = a == a && port_a == port_b
sockaddr_equal (inet6 a port_a) (other family_b) = false
sockaddr_equal (other family_a) sb = false

-- The loop over the clients from `i` on, with `n` rounds left.
pub find_client : ℕ → Array ClientInfo → SockAddr → ℕ → Option ℕ
find_client zero client addr i = none
find_client (suc n) client addr i =
    let rest = find_client n client addr (i + 1) in
    if sockaddr_equal addr (client i).saddr then some i else rest

-- The entry `old` of the table set up for a new client. All fields are set.
abbrev pub new_client : SockAddr → ℕ → ClientInfo
new_client addr addr_len = record {
  saddr = addr;
  saddr_len = addr_len;
  client_start_time_msec = int64_min;
  min_offset_usec = int64_max;
  sum_half_round_trip_usec = pos 0;
  mean_half_round_trip_usec = pos 0;
  last_ping_usec = pos 0;
  sample_count = 0;
  failed_sends = 0;
  failed_pings = 0;
  log_next_at = 1;
  is_disconnected = false;
}

pub lookup_client_info : UdpComms → SockAddr → ℕ → UdpComms × ℤ
unfolding find_client
lookup_client_info p addr addr_len = elim (find_client p.client_count p.client addr 0) [
  | some i ↦ (p, pos i)
  | none ↦ if leb max_clients p.client_count then (p, negsuc 0) else (
    record (with_client p p.client_count (new_client addr addr_len)) {
      client_count = p.client_count + 1;
    },
    pos p.client_count,
  )
]
