-- ===== src/Udp/Status.antt =====
-- What the plugin asks of the clients: udp_comms_connection_count and
-- udp_comms_age_of_oldest_ping_response of udp_comms.c.
pub mod Age
use jpl_vision.Common.{ℕ, zero, suc, ◌+◌, Bool, true, false, not, ◌&&◌, ltb, if◌then◌else◌}
use jpl_vision.Common.Memory.{Array}
use jpl_vision.Common.Int.{ℤ, pos, ◌-ℤ◌, ltb_ℤ, int64_max}
use jpl_vision.Udp.Types.{ClientInfo, UdpComms}

-- The loop from client `ii` on, with `n` rounds left.
pub count_from : ℕ → Array ClientInfo → ℕ → ℕ → ℕ
count_from zero client ii connection_count = connection_count
count_from (suc n) client ii connection_count = count_from n client (ii + 1) (
    if not (client ii).is_disconnected && ltb 0 (client ii).sample_count
    then connection_count + 1
    else connection_count)

pub udp_comms_connection_count : UdpComms → ℕ
unfolding count_from
udp_comms_connection_count p = count_from p.client_count p.client 0 0

-- The loop from client `ii` on, with `n` rounds left.
pub oldest_from : ℕ → Array ClientInfo → ℕ → ℤ → ℤ
oldest_from zero client ii oldest = oldest
oldest_from (suc n) client ii oldest = oldest_from n client (ii + 1) (
    if not (client ii).is_disconnected && ltb_ℤ (client ii).last_ping_usec oldest
    then (client ii).last_ping_usec
    else oldest)

pub udp_comms_age_of_oldest_ping_response : UdpComms → ℤ → ℤ
unfolding oldest_from
udp_comms_age_of_oldest_ping_response p now =
    let age = now -ℤ oldest_from p.client_count p.client 0 int64_max in
    if ltb_ℤ age (pos 0) then pos 0 else age
