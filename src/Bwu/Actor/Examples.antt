-- ===== src/Bwu/Actor/Examples.antt =====
-- A run of the actor with a platform of fakes.
use nearby_rs.Prelude.{ℕ, false, true, List, [], ◌∷◌, Str, ascii, unwrap_or}
use nearby_rs.Prelude.Map
use nearby_rs.Mediums.{Medium}
use nearby_rs.Proto.Sample.{sample_codec}
use nearby_rs.Bwu.Platform.{Platform}
use nearby_rs.Bwu.World.{default_config}
use nearby_rs.Bwu.Testing.{FakeEndpointChannel, new_fake_channel, fake_platform}
use nearby_rs.Bwu.Actor.{connection_initiated, register_channel}
use nearby_rs.Bwu.Actor.Run.{BwuMessage, BwuQuery, query, shutdown, Arrival, Loop, build, run}

abbrev p : Platform
p = fake_platform sample_codec

abbrev endpoint : Str
endpoint = ascii "ABCD"

abbrev channels : ℕ → FakeEndpointChannel
channels _ = new_fake_channel Medium.bluetooth (ascii "service")

-- A connection with a channel, a question about it, and a shutdown.
abbrev script : List Arrival
script =
    (record {
      now = 5;
      messages =
          BwuMessage.command (connection_initiated endpoint false true)
          ∷ BwuMessage.command (register_channel endpoint 0)
          ∷ [];
      connected = true;
    })
    ∷ (record {
      now = 6;
      messages = query (BwuQuery.get_upgraded_channel endpoint) ∷ [];
      connected = true;
    })
    ∷ (record { now = 7; messages = shutdown ∷ []; connected = true })
    ∷ (record { now = 8; messages = []; connected = true })
    ∷ (record { now = 9; messages = []; connected = true })
    ∷ []

abbrev ended : Loop p
ended = unwrap_or (run p 3 0 script (build p [] default_config (ascii "WXYZ") channels)) (record {
  actor = build p [] default_config (ascii "WXYZ") channels;
  queue = [];
  replies = [];
  stopped = true;
})
