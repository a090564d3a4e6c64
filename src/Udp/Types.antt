-- ===== src/Udp/Types.antt =====
-- The data types of udp_comms.h. Times are unbounded integers: signed overflow has no meaning in C.
use jpl_vision.Common.{ℕ, Bool, List}
use jpl_vision.Common.Memory.{Array, update}
use jpl_vision.Common.Int.{ℤ, ◌+ℤ◌, ◌-ℤ◌, quot}
use jpl_vision.Blobs.Types.{BlobStats}

-- A socket address: its family, and, of the two families that the code knows, address and port.
pub data SockAddr : Type 0 where
  inet : ℕ → ℕ → SockAddr
  inet6 : ℕ → ℕ → SockAddr
  other : ℕ → SockAddr

pub record EchoTime : Type 0 where
  pub cam_host_usec : ℤ
  pub client_msec : ℤ

-- What is sent: a Request_Time, or the used part of a Udp_Blob_List.
pub data Message : Type 0 where
  request_time : ℤ → Message
  udp_blob_list : ℤ → List BlobStats → Message

pub record ClientInfo : Type 0 where
  pub saddr : SockAddr
  pub saddr_len : ℕ
  pub client_start_time_msec : ℤ
  pub min_offset_usec : ℤ
  pub sum_half_round_trip_usec : ℤ
  pub mean_half_round_trip_usec : ℤ
  pub last_ping_usec : ℤ
  pub sample_count : ℕ
  pub failed_sends : ℕ
  pub failed_pings : ℕ
  pub log_next_at : ℕ
  pub is_disconnected : Bool

pub record UdpComms : Type 0 where
  pub client : Array ClientInfo
  pub client_count : ℕ

abbrev pub max_clients : ℕ
max_clients = 10

abbrev pub with_client : UdpComms → ℕ → ClientInfo → UdpComms
with_client p i c = record p { client = update p.client i c }

-- What sendto returns for a message to a client.
abbrev pub SendTo : Type 0
SendTo = SockAddr → ℕ → Message → ℤ

pub to_client_msecs : ClientInfo → ℤ → ℤ
to_client_msecs c cam_host_usec =
    quot (cam_host_usec +ℤ c.mean_half_round_trip_usec -ℤ c.min_offset_usec) 1000
    +ℤ c.client_start_time_msec
