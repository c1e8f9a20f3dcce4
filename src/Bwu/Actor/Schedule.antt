-- ===== src/Bwu/Actor/Schedule.antt =====
-- bwu/actor.rs: the retries and the timers of every state that the actor reaches.
use nearby_rs.Prelude.{
  ℕ, ◌≡◌, refl, ap, ◌∙◌, subst, ◌⊎◌, arith, Bool, true, false, Option, none, some, Str, str_eq,
  length,
}
use nearby_rs.Prelude.Map
use nearby_rs.Prelude.Map.{Map, get-insert, get-remove}
use nearby_rs.Bwu.Client
use nearby_rs.Bwu.Client.{ClientProxy}
use nearby_rs.Bwu.Platform.{Platform}
use nearby_rs.Bwu.World.{
  World, Duration, register_channel_for_endpoint, unregister_channel_for_endpoint,
}
use nearby_rs.Bwu.Manager.Initiate.{fire_retry_alarm}
use nearby_rs.Bwu.Manager.Dispatch.{reset_upgrade_for_endpoint}
use nearby_rs.Bwu.Manager.Invariant.{InBounds, Sound}
use nearby_rs.Bwu.Manager.Steps.{Kept, Kept-initiate, Kept-fire}
use nearby_rs.Bwu.Manager.Entries.{
  Kept-on_incoming_frame, Sound-on_incoming_connection, Sound-on_endpoint_disconnect,
}
use nearby_rs.Bwu.Actor.{
  BwuCommand, handle, connection_initiated, connection_accepted, local_endpoint_accepted,
  remote_endpoint_accepted, disconnected, set_upgrade_mediums, register_channel, unregister_channel,
  initiate_bwu, reset_upgrade, incoming_frame, incoming_connection, endpoint_disconnect,
}

-- The part of the invariant that is about the retries alone.
pub record Scheduled (p : Platform) (w : World p) : Type 0 where
  pub tracked :
      (id : Str)
      → (Map.get id w.retry_upgrade_alarms ≡ none)
        ⊎ (Map.get id w.retry_upgrade_alarms ≡ Map.get id w.retry_delays)
  pub bounded : (id : Str) (d : Duration) → Map.get id w.retry_delays ≡ some d → InBounds w.config d

-- The commands that change which endpoints have a channel.
abbrev pub registers : BwuCommand → Bool
registers (register_channel _ _) = true
registers (unregister_channel _) = true
registers _ = false

module _ (p : Platform) where
  pub Sound-refl : (w : World p) → Scheduled p w → Sound p w w
  Sound-refl w s = record {
    config = refl;
    tracked = s.tracked;
    bounded = s.bounded;
    keys = λ id. refl;
    count = refl;
    endpoints = refl;
  }

  Scheduled-Sound : {w₀ w : World p} → Sound p w₀ w → Scheduled p w
  Scheduled-Sound s = record { tracked = s.tracked; bounded = s.bounded }

  Sound-reset_upgrade :
      (id : Str) (w : World p) → Scheduled p w → Sound p w (reset_upgrade_for_endpoint p id w)
  unfolding reset_upgrade_for_endpoint
  Sound-reset_upgrade id w s = record {
    config = refl;
    tracked = s.tracked;
    bounded = s.bounded;
    keys = λ j. refl;
    count = refl;
    endpoints = refl;
  }

  -- The state after what a command tells the client, which is all that it tells of endpoints.
  unfoldable pub told : BwuCommand → World p → World p
  told (connection_initiated id a b) w = record w {
    client = Client.on_connection_initiated id a b w.client;
  }
  told (connection_accepted id) w = record w { client = Client.on_connection_accepted id w.client }
  told (local_endpoint_accepted id) w = record w {
    client = Client.local_endpoint_accepted_connection id w.client;
  }
  told (remote_endpoint_accepted id) w = record w {
    client = Client.remote_endpoint_accepted_connection id w.client;
  }
  told (disconnected id) w = record w { client = Client.on_disconnected id w.client }
  told (set_upgrade_mediums id l) w = record w { client = Client.set_upgrade_mediums id l w.client }
  told _ w = w

  ecm-told : (cmd : BwuCommand) (w : World p) → (told cmd w).ecm ≡ w.ecm
  unfolding told
  ecm-told (connection_initiated id a b) w = refl
  ecm-told (connection_accepted id) w = refl
  ecm-told (local_endpoint_accepted id) w = refl
  ecm-told (remote_endpoint_accepted id) w = refl
  ecm-told (disconnected id) w = refl
  ecm-told (set_upgrade_mediums id l) w = refl
  ecm-told _ w = refl

  Scheduled-client :
      (client : ClientProxy) (w : World p)
      → Scheduled p w
      → Scheduled p (record w { client = client })
  Scheduled-client client w s = record { tracked = s.tracked; bounded = s.bounded }

  Kept-told :
      (client : ClientProxy) (w : World p)
      → Scheduled p w
      → Sound p (record w { client = client }) (record w { client = client })
  Kept-told client w s = Sound-refl (record w { client = client }) (Scheduled-client client w s)

  pub Kept-handle :
      (fuel : ℕ) (cmd : BwuCommand) (w : World p)
      → registers cmd ≡ false
      → Scheduled p w
      → Kept p (told cmd w) (handle p fuel cmd w)
  unfolding handle Kept told
  Kept-handle fuel (connection_initiated id a b) w h s =
      Kept-told (Client.on_connection_initiated id a b w.client) w s
  Kept-handle fuel (connection_accepted id) w h s =
      Kept-told (Client.on_connection_accepted id w.client) w s
  Kept-handle fuel (local_endpoint_accepted id) w h s =
      Kept-told (Client.local_endpoint_accepted_connection id w.client) w s
  Kept-handle fuel (remote_endpoint_accepted id) w h s =
      Kept-told (Client.remote_endpoint_accepted_connection id w.client) w s
  Kept-handle fuel (disconnected id) w h s = Kept-told (Client.on_disconnected id w.client) w s
  Kept-handle fuel (set_upgrade_mediums id l) w h s =
      Kept-told (Client.set_upgrade_mediums id l w.client) w s
  Kept-handle fuel (register_channel id r) w h s = ground (arith, h)
  Kept-handle fuel (unregister_channel id) w h s = ground (arith, h)
  Kept-handle fuel (initiate_bwu id m) w h s = Kept-initiate p w fuel id m w (Sound-refl w s)
  Kept-handle fuel (reset_upgrade id) w h s = Sound-reset_upgrade id w s
  Kept-handle fuel (incoming_frame frame id) w h s =
      Kept-on_incoming_frame p w fuel frame id w (Sound-refl w s)
  Kept-handle fuel (incoming_connection r) w h s =
      Sound-on_incoming_connection p w r w (Sound-refl w s)
  Kept-handle fuel (endpoint_disconnect service_id id) w h s =
      Sound-on_endpoint_disconnect p w service_id id w (Sound-refl w s)

  get-unregister :
      (id : Str) (w : World p)
      → Scheduled p w
      → Scheduled p (unregister_channel_for_endpoint p id w).1
  unfolding unregister_channel_for_endpoint
  get-unregister id w s = record { tracked = s.tracked; bounded = s.bounded }

  get-register :
      (id : Str) (r : ℕ) (w : World p)
      → Scheduled p w
      → Scheduled p (register_channel_for_endpoint p id r w)
  unfolding register_channel_for_endpoint
  get-register id r w s = record { tracked = s.tracked; bounded = s.bounded }

  -- The state that a call returns, if it returns, has its retries in order.
  unfoldable Orderly : Option (World p) → Type 0
  Orderly none = Unit
  Orderly (some w) = Scheduled p w

  Orderly-Kept : (w : World p) (o : Option (World p)) → Kept p w o → Orderly o
  unfolding Kept Orderly
  Orderly-Kept w none k = k
  Orderly-Kept w (some w') k = Scheduled-Sound k

  Orderly-handle :
      (fuel : ℕ) (cmd : BwuCommand) (w : World p) → Scheduled p w → Orderly (handle p fuel cmd w)
  unfolding handle Orderly
  Orderly-handle fuel (register_channel id r) w s = get-register id r w s
  Orderly-handle fuel (unregister_channel id) w s = get-unregister id w s
  Orderly-handle fuel cmd w s =
      Orderly-Kept (told cmd w) (handle p fuel cmd w) (Kept-handle fuel cmd w refl s)

  -- Every command leaves a state in which each pending retry has its delay on record, and each
  -- delay on record is the first one or at most the maximum, if it was given such a state.
  pub handle-Scheduled :
      (fuel : ℕ) (cmd : BwuCommand) (w w' : World p)
      → Scheduled p w
      → handle p fuel cmd w ≡ some w'
      → Scheduled p w'
  unfolding Orderly
  handle-Scheduled fuel cmd w w' s e = subst Orderly e (Orderly-handle fuel cmd w s)

  -- No command but the two that register and unregister a channel changes which endpoints have
  -- a channel, or how many, if the retries are in order: an upgrade replaces a channel in place.
  pub contains_key-handle :
      (fuel : ℕ) (cmd : BwuCommand) (w w' : World p)
      → registers cmd ≡ false
      → Scheduled p w
      → handle p fuel cmd w ≡ some w'
      → ((id : Str) → Map.contains_key id w'.ecm ≡ Map.contains_key id w.ecm)
        × (length w'.ecm ≡ length w.ecm)
  unfolding Kept
  contains_key-handle fuel cmd w w' h s e =
      let k : Sound p (told cmd w) w' =
        subst (Kept p (told cmd w)) e (Kept-handle fuel cmd w h s) in
      (
        λ id. k.keys id ∙ ap (λ ecm. Map.contains_key id ecm) (ecm-told cmd w),
        k.count ∙ ap length (ecm-told cmd w),
      )

  -- So does a retry that fires.
  pub fire-Scheduled :
      (fuel : ℕ) (id : Str) (w w' : World p)
      → Scheduled p w
      → fire_retry_alarm p fuel id w ≡ some w'
      → Scheduled p w'
  unfolding Orderly
  fire-Scheduled fuel id w w' s e =
      subst Orderly e
        (Orderly-Kept w (fire_retry_alarm p fuel id w) (Kept-fire p w fuel id w (Sound-refl w s)))
