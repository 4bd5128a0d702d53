-- ===== src/Ntp/Tests.antt =====
-- The theorems on the time servers at concrete answers.
use com_webos_service_locati.Base.{◌*◌, ◌≡◌, refl, some, List, [], codes, ltb, if◌then◌else◌, arith}
use com_webos_service_locati.Ntp.{
  Net, Packet, no_connection, reply, Effect, ntp_servers, ntp_download_thread, data_of, to_ntp,
}
use com_webos_service_locati.Ntp.Rounds.{names, IsDone, first_reply, ntp_download_thread-IsDone}
use com_webos_service_locati.Ntp.Stamps.{data_of-time}

abbrev packet : Packet
packet = record { receive_time_stamp = 7; transmit_time_stamp = to_ntp 1700000000 }

-- The first server refuses, the second replies. The order of bytes is that of the network.
abbrev net : Net
net = record {
  attempt = λ i s. if ltb 0 i then reply 10 30 packet else no_connection;
  clock = 1700000000;
  htonl = λ x. x;
  ntohl = λ x. x;
}

ntp_download_thread-IsDone_example :
    (es : List Effect) × ((ntp_download_thread net (names (codes "a.ntp") [] (codes "b.ntp"))
        ≡ some es)
      × IsDone (first_reply net (ntp_servers (names (codes "a.ntp") [] (codes "b.ntp"))) 0) es)
ntp_download_thread-IsDone_example =
    ntp_download_thread-IsDone net (codes "a.ntp") [] (codes "b.ntp")

data_of-time_example : (data_of net 10 30 packet).ntp_time ≡ 1700000000 * 1000
data_of-time_example = data_of-time net 10 30 1700000000 7 (λ x h. refl) (omega arith)
