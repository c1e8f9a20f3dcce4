-- ===== src/Bwu/Manager/Disconnect.antt =====
-- bwu/manager.rs: what a disconnect leaves of an endpoint, and of the others.
use nearby_rs.Prelude.{
  ℕ, ◌≡◌, arith, Bool, false, Option, none, Str, ◌==◌, str_eq, str_beq_iff, if◌then◌else◌, not,
  ◌||◌, leb, length, ap, ◌∙◌, Bool-cases, inl, inr,
}
use nearby_rs.Prelude.Map
use nearby_rs.Prelude.Map.{get-remove}
use nearby_rs.Prelude.Set
use nearby_rs.Prelude.Set.{contains-remove}
use nearby_rs.Bwu.Platform.{Platform}
use nearby_rs.Bwu.World.{get_connected_endpoints_count, World, Duration}
use nearby_rs.Bwu.Manager.Medium.{get_bwu_medium_for_endpoint, revert_bwu_medium_for_endpoint}
use nearby_rs.Mediums.{Medium}
use nearby_rs.Bwu.Manager.Protocol.{close_parked}
use nearby_rs.Bwu.Manager.Retry.{cancel_retry_upgrade_alarm}
use nearby_rs.Bwu.Manager.Dispatch.{notify_handler, clear_endpoint, on_endpoint_disconnect}

module _ (p : Platform) where
  -- What the manager keeps about the upgrade of an endpoint.
  pub record Upgrade : Type 0 where
    pub in_progress : Bool
    pub parked : Option ℕ
    pub last_write_seen : Bool
    pub alarm : Option Duration
    pub delay : Option Duration
    pub medium : Medium

  unfoldable pub upgrade_of : Str → World p → Upgrade
  upgrade_of id w = record {
    in_progress = Set.contains id w.in_progress_upgrades;
    parked = Map.get id w.previous_endpoint_channels;
    last_write_seen = Set.contains id w.successfully_upgraded_endpoints;
    alarm = Map.get id w.retry_upgrade_alarms;
    delay = Map.get id w.retry_delays;
    medium = get_bwu_medium_for_endpoint p id w;
  }

  abbrev pub idle : Upgrade
  idle = record {
    in_progress = false;
    parked = none;
    last_write_seen = false;
    alarm = none;
    delay = none;
    medium = Medium.unknown_medium;
  }

  upgrade_of-notify_handler :
      (id j : Str) (w : World p) → upgrade_of j (notify_handler p id w) ≡ upgrade_of j w
  unfolding upgrade_of notify_handler get_bwu_medium_for_endpoint
  upgrade_of-notify_handler id j w = ground arith

  -- What the revert of an endpoint's medium leaves of the medium of an endpoint.
  abbrev pub reverted_medium : Str → Str → World p → Medium
  reverted_medium id j w =
      if not w.config.support_multiple_bwu_mediums || id == j
      then Medium.unknown_medium
      else get_bwu_medium_for_endpoint p j w

  upgrade_of-revert :
      (s id j : Str) (w : World p)
      → upgrade_of j (revert_bwu_medium_for_endpoint p s id w)
        ≡ record (upgrade_of j w) { medium = reverted_medium id j w }
  unfolding upgrade_of revert_bwu_medium_for_endpoint get_bwu_medium_for_endpoint
  upgrade_of-revert s id j w =
      ground (arith, get-remove id j w.endpoint_id_to_bwu_medium, str_beq_iff id j)

  upgrade_of-clear_endpoint :
      (id j : Str) (w : World p)
      → upgrade_of j (clear_endpoint p id w) ≡ record (if id == j then idle else upgrade_of j w) {
        medium = get_bwu_medium_for_endpoint p j w;
      }
  unfolding upgrade_of clear_endpoint close_parked cancel_retry_upgrade_alarm
      get_bwu_medium_for_endpoint
  upgrade_of-clear_endpoint id j w = ground (
    arith,
    get-remove id j w.previous_endpoint_channels,
    get-remove id j w.retry_upgrade_alarms,
    get-remove id j w.retry_delays,
    contains-remove id j w.in_progress_upgrades,
    contains-remove id j w.successfully_upgraded_endpoints,
    str_beq_iff id j,
  )

  -- What the revert reads is not touched before it.
  cleared-same :
      (id j : Str) (w : World p)
      → (let w2 = clear_endpoint p id (notify_handler p id w) in
          (w2.config ≡ w.config)
          × (get_connected_endpoints_count p w2 ≡ length w.ecm)
          × (get_bwu_medium_for_endpoint p j w2 ≡ get_bwu_medium_for_endpoint p j w))
  unfolding clear_endpoint notify_handler close_parked cancel_retry_upgrade_alarm
      get_bwu_medium_for_endpoint get_connected_endpoints_count
  cleared-same id j w = (ground arith, ground arith, ground arith)

  upgrade_of-cleared :
      (id j : Str) (w : World p)
      → upgrade_of j (clear_endpoint p id (notify_handler p id w))
        ≡ record (if id == j then idle else upgrade_of j w) {
          medium = get_bwu_medium_for_endpoint p j w;
        }
  unfolding get_bwu_medium_for_endpoint upgrade_of
  upgrade_of-cleared id j w =
      let w1 = notify_handler p id w in
      upgrade_of-clear_endpoint id j w1
      ∙ ap (λ u. record (if id == j then idle else u) { medium = u.medium })
          (upgrade_of-notify_handler id j w)

  -- The medium is given up if each endpoint has its own, or at most one endpoint is connected.
  abbrev pub gives_up_medium : World p → Bool
  gives_up_medium w = w.config.support_multiple_bwu_mediums || leb (length w.ecm) 1

  -- A disconnect leaves nothing of the endpoint's upgrade: it is not in progress, no channel is
  -- parked, no last write is remembered, and no retry is pending or delayed; the upgrades of the
  -- other endpoints are as they were. If each endpoint has its own medium, that of the endpoint is
  -- forgotten and the others' stay; if they share one, it is forgotten if at most one endpoint is
  -- connected, and stays otherwise.
  pub upgrade_of-on_endpoint_disconnect :
      (service_id id j : Str) (w : World p)
      → upgrade_of j (on_endpoint_disconnect p service_id id w)
        ≡ record (if id == j then idle else upgrade_of j w) {
          medium =
              if gives_up_medium w
              then reverted_medium id j w
              else get_bwu_medium_for_endpoint p j w;
        }
  unfolding on_endpoint_disconnect
  upgrade_of-on_endpoint_disconnect service_id id j w =
      let w2 = clear_endpoint p id (notify_handler p id w) in
      let (config, count, medium) = cleared-same id j w in
      let gave_up : (w2.config.support_multiple_bwu_mediums
            || leb (get_connected_endpoints_count p w2) 1)
          ≡ gives_up_medium w =
        λ i. (config i).support_multiple_bwu_mediums || leb (count i) 1 in
      let reverted : reverted_medium id j w2 ≡ reverted_medium id j w = λ i.
        if not (config i).support_multiple_bwu_mediums || id == j
        then Medium.unknown_medium
        else medium i in
      elim (Bool-cases (gives_up_medium w)) [
        | inl g ↦
            rw (on_endpoint_disconnect, gave_up, g)
              (upgrade_of-revert service_id id j w2 ∙ λ i. record (upgrade_of-cleared id j w i) {
                medium = reverted i;
              })
        | inr g ↦ rw (on_endpoint_disconnect, gave_up, g) (upgrade_of-cleared id j w)
      ]
