-- ===== src/Udp/Send.antt =====
-- Sending to clients: udp_comms_send, send_request_time and udp_comms_send_blobs_to_all of
-- udp_comms.c. What sendto returns is an argument; a result carries whether a failure was logged.
pub mod Backoff
pub mod Kept
pub mod Blobs
use jpl_vision.Common.{
  ℕ, zero, suc, ◌+◌, ◌*◌, Bool, true, false, ◌||◌, List, ltb, ◌==◌, if◌then◌else◌,
}
use jpl_vision.Common.Memory.{Array}
use jpl_vision.Common.Int.{ℤ, pos, negsuc, ltb_ℤ, is_zero}
use jpl_vision.Blobs.Types.{BlobStats}
use jpl_vision.Udp.Types.{
  SendTo, Message, request_time, udp_blob_list, ClientInfo, UdpComms, with_client, to_client_msecs,
}

-- A failed send is counted, and logged if it is the one to be logged next.
pub count_failure : ClientInfo → ClientInfo × Bool
count_failure c =
    let failed = c.failed_sends + 1 in
    if failed == c.log_next_at
    then (record c { failed_sends = failed; log_next_at = c.log_next_at * 10 }, true)
    else (record c { failed_sends = failed }, false)

-- What udp_comms_send makes of the client when sendto has returned `retval`.
pub after_send : ClientInfo → ℤ → ClientInfo × Bool
unfolding count_failure
after_send c retval =
    if ltb_ℤ retval (pos 0)
    then count_failure (record c { is_disconnected = true })
    else (record c { is_disconnected = false; log_next_at = 1 }, false)

unfoldable pub udp_comms_send : SendTo → UdpComms → ℕ → Message → UdpComms × ℤ × Bool
unfolding after_send
udp_comms_send sendto p client_no msg =
    let c = p.client client_no in
    let retval = sendto c.saddr c.saddr_len msg in
    let (c', logged) = after_send c retval in (with_client p client_no c', retval, logged)

-- `usec` is what get_usecs returns.
pub send_request_time : SendTo → UdpComms → ℕ → ℤ → UdpComms × ℤ × Bool
unfolding udp_comms_send
send_request_time sendto p client_no usec = udp_comms_send sendto p client_no (request_time usec)

-- One client's round: the list is sent with the time on the client's clock. Only a result of 0 is
-- taken for a success.
pub send_blobs : SendTo → ClientInfo → ℤ → List BlobStats → ClientInfo × Bool
unfolding count_failure
send_blobs sendto c cam_host_usec blobs =
    let retval =
      sendto c.saddr c.saddr_len (udp_blob_list (to_client_msecs c cam_host_usec) blobs) in
    if is_zero retval then (c, true) else (let (c', logged) = count_failure c in (c', false))

-- The loop from `client_no` on, with `n` rounds left: the clients and some_success.
pub send_blobs_from : ℕ → SendTo → UdpComms → ℕ → ℤ → List BlobStats → Bool → UdpComms × Bool
unfolding send_blobs
send_blobs_from zero sendto p client_no cam_host_usec blobs some_success = (p, some_success)
send_blobs_from (suc n) sendto p client_no cam_host_usec blobs some_success =
    let (c, sent) = send_blobs sendto (p.client client_no) cam_host_usec blobs in
    send_blobs_from n sendto (with_client p client_no c) (client_no + 1) cam_host_usec blobs
      (some_success || sent)

pub udp_comms_send_blobs_to_all : SendTo → UdpComms → ℤ → List BlobStats → UdpComms × ℤ
unfolding send_blobs_from
udp_comms_send_blobs_to_all sendto p cam_host_usec blobs =
    let (q, some_success) = send_blobs_from p.client_count sendto p 0 cam_host_usec blobs false in
    (q, if some_success then pos 0 else negsuc 0)
