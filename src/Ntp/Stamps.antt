-- ===== src/Ntp/Stamps.antt =====
-- The time that a server sends (NtpClient.cpp).
use com_webos_service_locati.Base.{◌∙◌, ℕ, ◌*◌, ◌%◌, ◌<◌, ◌≡◌, ap, arith}
use com_webos_service_locati.Ntp.{Net, data_of, to_ntp, from_ntp, two_32}

-- Unix time in 32 bits is the same after the way through the seconds of the NTP protocol, which wrap
-- around in 2036.
pub from_ntp-to_ntp : (t : ℕ) → from_ntp (to_ntp t) ≡ t % two_32
from_ntp-to_ntp t = omega arith

-- A server whose clock shows the Unix time `t`, before 2106, sends the NTP seconds of `t` in the
-- order of the network: the callback is given `t` in milliseconds, whatever else is in the reply.
-- `ntohl` undoes `htonl`.
pub data_of-time :
    (net : Net) (requested responded t receive : ℕ)
    → ((x : ℕ) → x < two_32 → net.ntohl (net.htonl x) ≡ x)
    → t < two_32
    → (data_of net requested responded (record {
      receive_time_stamp = receive;
      transmit_time_stamp = net.htonl (to_ntp t);
    })).ntp_time
      ≡ t * 1000
unfolding data_of
data_of-time net requested responded t receive law early =
    let wire = law (to_ntp t) (omega arith) in
    let same = from_ntp-to_ntp t in
    ap (λ s. from_ntp s * 1000) wire ∙ ap (λ s. s * 1000) (same ∙ omega arith)
