-- ===== src/Ntp.antt =====
-- The client of the time servers: src/handler/position/gps/NtpClient.cpp. Sockets, the names of
-- hosts, the clocks and the order of bytes are outside: `Net` has their answers.
pub mod Rounds
pub mod Stamps
mod Tests
use com_webos_service_locati.Base.{
  ℕ, zero, suc, ◌+◌, ◌-◌, ◌*◌, ◌%◌, Bool, true, false, Option, none, some, List, [], ◌∷◌, ◌++◌, ltb,
  get_elem?, if◌then◌else◌,
}
use com_webos_service_locati.Base.Int.{ℤ, pos, negsuc, ◌-ℤ◌}

-- 86400U * (365U * 70U + 17U)
abbrev pub ntp_epoch : ℕ
ntp_epoch = 2208988800

abbrev pub two_32 : ℕ
two_32 = 4294967296

-- Seconds of Unix time as the NTP protocol counts them, and back, in 32 bits.
abbrev pub to_ntp : ℕ → ℕ
to_ntp t = (t + ntp_epoch) % two_32

abbrev pub from_ntp : ℕ → ℕ
from_ntp s = (s + (two_32 - ntp_epoch)) % two_32

-- The two words of a reply that the code reads, as they lie in the packet.
pub record Packet : Type 0 where
  pub receive_time_stamp : ℕ
  pub transmit_time_stamp : ℕ

-- What one server comes to. The ticks are the monotonic clock before and after.
pub data Attempt : Type 0 where
  no_socket no_address no_connection no_reply : Attempt
  reply : ℕ → ℕ → Packet → Attempt

-- The answers: what the attempt with a number and a server comes to, the clock, `htonl`, `ntohl`.
pub record Net : Type 0 where
  pub attempt : ℕ → List ℕ → Attempt
  pub clock : ℕ
  pub htonl : ℕ → ℕ
  pub ntohl : ℕ → ℕ

pub data NtpDownloadState : Type 0 where
  ntp_pending_network ntp_downloading ntp_idle : NtpDownloadState

pub record NtpData : Type 0 where
  pub ntp_time : ℕ
  pub ntp_time_reference : ℕ
  pub round_trip_time : ℤ

-- The calls in order: `onRequestCompleted` with its data, or with CONNECTION_PROBLEM.
pub data Effect : Type 0 where
  open_socket close_socket : Effect
  send_request : ℕ → Effect
  completed : Option NtpData → Effect
  status_is : NtpDownloadState → Effect

-- A 64-bit integer as an `int`.
pub to_i32 : ℤ → ℤ
to_i32 (pos n) = let u = n % two_32 in if ltb u 2147483648 then pos u else negsuc (two_32 - 1 - u)
to_i32 (negsuc n) =
    let u = n % two_32 in if ltb u 2147483648 then negsuc u else pos (two_32 - 1 - u)

-- The two words are subtracted as they lie in the packet.
unfoldable pub data_of : Net → ℕ → ℕ → Packet → NtpData
unfolding to_i32
data_of net requested responded p =
    let words = (p.transmit_time_stamp + (two_32 - p.receive_time_stamp)) % two_32 in
    record {
      ntp_time = from_ntp (net.ntohl p.transmit_time_stamp) * 1000;
      ntp_time_reference = responded;
      round_trip_time = to_i32 ((pos responded -ℤ pos requested) -ℤ pos words);
    }

-- The names that are not empty.
unfoldable pub ntp_servers : List (List ℕ) → List (List ℕ)
ntp_servers [] = []
ntp_servers ([] ∷ names) = ntp_servers names
ntp_servers ((c ∷ cs) ∷ names) = (c ∷ cs) ∷ ntp_servers names

-- What a loop does next: it has ended with these calls, or goes on with the next server.
pub data Outcome : Type 0 where
  ended goes_on : List Effect → Outcome

unfoldable pub one_server : Net → Attempt → Outcome
unfolding data_of
one_server net no_socket = ended (status_is ntp_idle ∷ completed none ∷ [])
one_server net no_address = goes_on (open_socket ∷ close_socket ∷ [])
one_server net no_connection = goes_on (open_socket ∷ close_socket ∷ [])
one_server net no_reply =
    goes_on (open_socket ∷ send_request (net.htonl (to_ntp net.clock)) ∷ close_socket ∷ [])
one_server net (reply requested responded p) = ended (
    open_socket
    ∷ send_request (net.htonl (to_ntp net.clock))
    ∷ completed (some (data_of net requested responded p))
    ∷ close_socket
    ∷ status_is ntp_idle
    ∷ [])

-- The calls of a server, and those of the rest of the loop if it goes on.
pub continue : Outcome → Option (List Effect) → Option (List Effect)
continue (ended es) rest = some es
continue (goes_on es) none = none
continue (goes_on es) (some more) = some (es ++ more)

-- `while (nextserverindex < count)`, on fuel: `none` is a loop that has not ended.
unfoldable pub rounds : ℕ → Net → List (List ℕ) → ℕ → Option (List Effect)
unfolding one_server continue
rounds zero net servers i = none
rounds (suc fuel) net servers i =
    let rest = rounds fuel net servers (suc i) in
    elim (get_elem? servers i) [
      | none ↦ some (completed none ∷ status_is ntp_idle ∷ [])
      | some server ↦ continue (one_server net (net.attempt i server)) rest
    ]

-- Four rounds are enough for the three names.
unfoldable pub ntp_download_thread : Net → List (List ℕ) → Option (List Effect)
unfolding ntp_servers rounds
ntp_download_thread net names = elim (ntp_servers names) [
  | [] ↦ some (status_is ntp_idle ∷ completed none ∷ [])
  | s ∷ ss ↦ rounds 4 net (s ∷ ss) 0
]

pub record NtpClient : Type 0 where
  pub download_status : NtpDownloadState

pub is_downloading : NtpDownloadState → Bool
is_downloading ntp_pending_network = false
is_downloading ntp_downloading = true
is_downloading ntp_idle = false

-- The arguments of `start` are there or not, and the thread is made or not; the last part says
-- whether a download runs now.
unfoldable pub start : Bool → Bool → NtpClient → NtpClient × Bool × List Effect × Bool
unfolding is_downloading
start false thread c = (c, false, [], false)
start true thread c =
    if is_downloading c.download_status
    then (c, true, [], false)
    else if thread
    then (
      record c { download_status = ntp_downloading },
      true,
      status_is ntp_downloading ∷ [],
      true,
    )
    else (
      record c { download_status = ntp_idle },
      false,
      status_is ntp_downloading ∷ status_is ntp_idle ∷ completed none ∷ [],
      false,
    )
