-- ===== src/Bwu/World.antt =====
-- bwu/manager.rs: the manager's state, and bwu/channel_manager.rs. The state holds what the one
-- owner of the manager holds: the manager's fields, the channel registry, the client, and the
-- channels. A channel is shared (`Arc`), so the maps hold references into `chan`, and a write
-- through one reference is seen through all.
use nearby_rs.Prelude.{
  ℕ, suc, ◌*◌, ◌^◌, ◌-◌, Bool, true, not, Option, List, [], Bytes, Str, ◌==◌, str_eq, nat_eq,
  if◌then◌else◌, length, any, is_none, nat_beq,
}
use nearby_rs.Prelude.Map
use nearby_rs.Prelude.Map.{Map}
use nearby_rs.Mediums.{Medium, medium_eq}
use nearby_rs.Frames.Defs.{Exception, Result}
use nearby_rs.Bwu.Client.{ClientProxy}
use nearby_rs.Bwu.Platform.{Platform}

-- A duration, in nanoseconds.
abbrev pub Duration : Type 0
Duration = ℕ

-- `Duration::MAX`: 64 bits of seconds, and a second less a nanosecond
unfoldable pub max_duration : Duration
max_duration = 2 ^ 64 * 1_000_000_000 - 1

abbrev pub from_secs : ℕ → Duration
from_secs s = s * 1_000_000_000

pub record BwuConfig : Type 0 where
  pub support_multiple_bwu_mediums : Bool
  pub use_exp_backoff_in_bwu_retry : Bool
  pub bandwidth_upgrade_retry_delay : Duration
  pub bandwidth_upgrade_retry_max_delay : Duration

abbrev pub default_config : BwuConfig
default_config = record {
  support_multiple_bwu_mediums = true;
  use_exp_backoff_in_bwu_retry = true;
  bandwidth_upgrade_retry_delay = 0;
  bandwidth_upgrade_retry_max_delay = 0;
}

-- The constructor's resolution of delays that are zero.
unfoldable pub resolve_config : BwuConfig → BwuConfig
resolve_config config = record config {
  bandwidth_upgrade_retry_delay =
      if nat_beq config.bandwidth_upgrade_retry_delay 0
      then (if config.use_exp_backoff_in_bwu_retry then from_secs 3 else from_secs 5)
      else config.bandwidth_upgrade_retry_delay;
  bandwidth_upgrade_retry_max_delay =
      if nat_beq config.bandwidth_upgrade_retry_max_delay 0
      then (if config.use_exp_backoff_in_bwu_retry then from_secs 300 else from_secs 10)
      else config.bandwidth_upgrade_retry_max_delay;
}

pub record World (p : Platform) : Type 0 where
  pub config : BwuConfig
  pub handlers : Map Medium p.Handler
  pub medium : Medium
  pub endpoint_id_to_bwu_medium : Map Str Medium
  pub in_progress_upgrades : List Str
  pub previous_endpoint_channels : Map Str ℕ
  pub successfully_upgraded_endpoints : List Str
  pub retry_upgrade_alarms : Map Str Duration
  pub retry_delays : Map Str Duration
  pub ecm : Map Str ℕ
  pub client : ClientProxy
  pub next_chan : ℕ
  pub chan : ℕ → p.Chan

module _ (p : Platform) where
  open p use {Chan, Handler, channel}

  unfoldable pub new : Map Medium Handler → BwuConfig → ClientProxy → (ℕ → Chan) → World p
  unfolding resolve_config
  new handlers config client chan = record {
    config = resolve_config config;
    handlers = handlers;
    medium = Medium.unknown_medium;
    endpoint_id_to_bwu_medium = [];
    in_progress_upgrades = [];
    previous_endpoint_channels = [];
    successfully_upgraded_endpoints = [];
    retry_upgrade_alarms = [];
    retry_delays = [];
    ecm = [];
    client = client;
    next_chan = 0;
    chan = chan;
  }

  -- The channels, by reference.
  abbrev pub update_chan : (Chan → Chan) → ℕ → World p → World p
  update_chan f r w = record w { chan = λ q. if nat_beq r q then f (w.chan q) else w.chan q }

  abbrev pub put_chan : ℕ → Chan → World p → World p
  put_chan r c w = record w { chan = λ q. if nat_beq r q then c else w.chan q }

  unfoldable pub write_chan : ℕ → Bytes → World p → Exception × World p
  write_chan r bytes w = let (e, c) = channel.write bytes (w.chan r) in (e, put_chan r c w)

  unfoldable pub read_chan : ℕ → World p → Result Bytes × World p
  read_chan r w = let (e, c) = channel.read (w.chan r) in (e, put_chan r c w)

  -- A channel that a handler has created gets a fresh reference.
  unfoldable pub alloc_chan : Chan → World p → ℕ × World p
  alloc_chan c w = (w.next_chan, record (put_chan w.next_chan c w) { next_chan = suc w.next_chan })

  -- bwu/channel_manager.rs
  unfoldable pub register_channel_for_endpoint : Str → ℕ → World p → World p
  register_channel_for_endpoint endpoint_id r w = record w { ecm = Map.insert endpoint_id r w.ecm }

  unfoldable pub replace_channel_for_endpoint : Str → ℕ → Bool → World p → World p
  replace_channel_for_endpoint endpoint_id r _ w = record w { ecm = Map.insert endpoint_id r w.ecm }

  unfoldable pub get_channel_for_endpoint : Str → World p → Option ℕ
  get_channel_for_endpoint endpoint_id w = Map.get endpoint_id w.ecm

  unfoldable pub unregister_channel_for_endpoint : Str → World p → Bool × World p
  unregister_channel_for_endpoint endpoint_id w =
      (not (is_none (Map.get endpoint_id w.ecm)), record w { ecm = Map.remove endpoint_id w.ecm })

  unfoldable pub get_connected_endpoints_count : World p → ℕ
  get_connected_endpoints_count w = length w.ecm

  unfoldable pub is_wifi_lan_connected : World p → Bool
  is_wifi_lan_connected w = any (λ (_, r). channel.medium (w.chan r) == Medium.wifi_lan) w.ecm
