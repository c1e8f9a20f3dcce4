-- ===== src/Bwu/Tcp/Examples.antt =====
-- An accept loop over the sample sockets.
use nearby_rs.Prelude.{ℕ, ◌≡◌, refl, true, false, some, List, [], ◌∷◌, ◌++◌, Str, ascii}
use nearby_rs.Mediums.{Medium}
use nearby_rs.Proto.Sample.{sample_codec}
use nearby_rs.Bwu.StreamChannel.{Cipher}
use nearby_rs.Bwu.StreamChannel.Pipe.{PipeState, new_pipe}
use nearby_rs.Bwu.Tcp.{accept_loop}
use nearby_rs.Bwu.Tcp.Sample.{sample_sockets}
use nearby_rs.Bwu.Tcp.Accept.{channels, incoming, accept_loop-incoming}

abbrev plain : Cipher ℕ
plain = record { encode = λ b n. (some b, n); decode = λ b n. (some b, n) }

abbrev service : Str
service = ascii "service"

abbrev streams : List PipeState
streams = new_pipe ∷ new_pipe ∷ []

accept_loop-incoming_example :
    (accept_loop sample_sockets sample_codec plain service (ascii "wifi-lan") Medium.wifi_lan (
        incoming sample_sockets sample_codec plain service
          (ascii "wifi-lan")
          Medium.wifi_lan
          streams)
      ≡ (
        channels sample_sockets sample_codec plain service
            (ascii "wifi-lan")
            Medium.wifi_lan
            streams,
        false,
      ))
    × (accept_loop sample_sockets sample_codec plain service (ascii "wifi-lan") Medium.wifi_lan (
          incoming sample_sockets sample_codec plain service
            (ascii "wifi-lan")
            Medium.wifi_lan
            streams
          ++ (true, some new_pipe) ∷ (false, some new_pipe) ∷ [])
        ≡ (
          channels sample_sockets sample_codec plain service
              (ascii "wifi-lan")
              Medium.wifi_lan
              streams,
          true,
        ))
accept_loop-incoming_example =
    accept_loop-incoming sample_sockets sample_codec plain service (ascii "wifi-lan")
      Medium.wifi_lan streams true (some new_pipe) ((false, some new_pipe) ∷ []) refl
