-- ===== src/Bwu/Actor/Endpoints.antt =====
-- bwu/actor.rs: what the client knows of endpoints after a command and after a retry.
use nearby_rs.Prelude.{ℕ, ◌≡◌, refl, subst, Option, none, some, Str, str_eq}
use nearby_rs.Bwu.Platform.{Platform}
use nearby_rs.Bwu.World.{World, register_channel_for_endpoint, unregister_channel_for_endpoint}
use nearby_rs.Bwu.Manager.Initiate.{fire_retry_alarm}
use nearby_rs.Bwu.Manager.Steps.{Kept, Kept-fire}
use nearby_rs.Bwu.Actor.{BwuCommand, handle, register_channel, unregister_channel}
use nearby_rs.Bwu.Actor.Schedule.{Scheduled, told, Sound-refl, Kept-handle}

module _ (p : Platform) where
  -- What the client knows of endpoints afterwards, if the call returns.
  unfoldable Knows : World p → Option (World p) → Type 0
  Knows w none = Unit
  Knows w (some w') = w'.client.endpoints ≡ w.client.endpoints

  Knows-Kept : (w : World p) (o : Option (World p)) → Kept p w o → Knows w o
  unfolding Kept Knows
  Knows-Kept w none k = k
  Knows-Kept w (some w') k = k.endpoints

  Knows-handle :
      (fuel : ℕ) (cmd : BwuCommand) (w : World p)
      → Scheduled p w
      → Knows (told p cmd w) (handle p fuel cmd w)
  unfolding handle told Knows register_channel_for_endpoint unregister_channel_for_endpoint
  Knows-handle fuel (register_channel id r) w s = refl
  Knows-handle fuel (unregister_channel id) w s = refl
  Knows-handle fuel cmd w s =
      Knows-Kept (told p cmd w) (handle p fuel cmd w) (Kept-handle p fuel cmd w refl s)

  -- The client knows of endpoints what it is told.
  pub endpoints-handle :
      (fuel : ℕ) (cmd : BwuCommand) (w w' : World p)
      → Scheduled p w
      → handle p fuel cmd w ≡ some w'
      → w'.client.endpoints ≡ (told p cmd w).client.endpoints
  unfolding Knows
  endpoints-handle fuel cmd w w' s e = subst (Knows (told p cmd w)) e (Knows-handle fuel cmd w s)

  -- A retry that fires tells it nothing.
  pub endpoints-fire :
      (fuel : ℕ) (id : Str) (w w' : World p)
      → Scheduled p w
      → fire_retry_alarm p fuel id w ≡ some w'
      → w'.client.endpoints ≡ w.client.endpoints
  unfolding Knows
  endpoints-fire fuel id w w' s e =
      subst (Knows w) e
        (Knows-Kept w (fire_retry_alarm p fuel id w) (Kept-fire p w fuel id w (Sound-refl p w s)))
