-- ===== src/Bwu/Handler.antt =====
-- bwu/handler.rs: the bookkeeping that `BaseBwuHandler` adds to a medium's handler. For each
-- wrapped service id it keeps the set of endpoints that initiated an upgrade.
pub mod Active
pub mod Calls
mod Examples
use nearby_rs.Prelude.{
  Bool, true, false, not, Option, none, some, List, [], ◌∷◌, Bytes, Str, str_eq, if◌then◌else◌,
  is_empty, unwrap_or,
}
use nearby_rs.Prelude.Map
use nearby_rs.Prelude.Map.{Map}
use nearby_rs.Prelude.Set
use nearby_rs.Proto.Upgrade.{UpgradePathInfo}
use nearby_rs.Bwu.ServiceId.{is_initiator_upgrade_service_id, wrap_initiator_upgrade_service_id}
use nearby_rs.Bwu.Client.{ClientProxy}
use nearby_rs.Bwu.Platform.{BwuHandler}

-- The trait `MediumBwuHandler`, over the state of a medium's handler.
pub record MediumBwuHandler (Chan Inner : Type 0) : Type 0 where
  pub handle_initialize_upgraded_medium_for_endpoint :
      ClientProxy → Str → Str → Inner → Bytes × Inner
  pub handle_revert_initiator_state_for_service : Str → Inner → Inner
  pub create_upgraded_endpoint_channel :
      ClientProxy → Str → Str → UpgradePathInfo → Inner → Option Chan × Inner
  pub on_endpoint_disconnect : ClientProxy → Str → Inner → Inner

pub record BaseBwuHandler (Inner : Type 0) : Type 0 where
  pub inner : Inner
  pub active : Map Str (List Str)

module _ {Chan Inner : Type 0} (m : MediumBwuHandler Chan Inner) where
  unfoldable pub new : Inner → BaseBwuHandler Inner
  new inner = record { inner = inner; active = [] }

  unfoldable pub initialize_upgraded_medium_for_endpoint :
      ClientProxy → Str → Str → BaseBwuHandler Inner → Bytes × BaseBwuHandler Inner
  initialize_upgraded_medium_for_endpoint client service_id endpoint_id h =
      let upgrade_service_id = wrap_initiator_upgrade_service_id service_id in
      let (frame, inner) =
        m.handle_initialize_upgraded_medium_for_endpoint client upgrade_service_id endpoint_id
          h.inner in
      let ids = unwrap_or (Map.get upgrade_service_id h.active) [] in
      (
        frame,
        record {
          inner = inner;
          active =
              if not (is_empty frame)
              then Map.insert upgrade_service_id (Set.insert endpoint_id ids) h.active
              else h.active;
        },
      )

  -- The loop over the service ids.
  revert_services : List (Str × List Str) → Inner → Inner
  revert_services [] inner = inner
  revert_services ((service_id, _) ∷ rest) inner =
      revert_services rest (m.handle_revert_initiator_state_for_service service_id inner)

  unfoldable pub revert_initiator_state : BaseBwuHandler Inner → BaseBwuHandler Inner
  unfolding revert_services
  revert_initiator_state h = record { inner = revert_services h.active h.inner; active = [] }

  -- The endpoint leaves its service, and the last one reverts the medium.
  unfoldable pub drop_endpoint : Str → Str → List Str → BaseBwuHandler Inner → BaseBwuHandler Inner
  drop_endpoint upgrade_service_id endpoint_id ids h =
      let ids' = Set.remove endpoint_id ids in
      if is_empty ids'
      then record {
        inner = m.handle_revert_initiator_state_for_service upgrade_service_id h.inner;
        active = Map.remove upgrade_service_id h.active;
      }
      else record h { active = Map.insert upgrade_service_id ids' h.active }

  unfoldable pub revert_initiator_state_for_endpoint :
      Str → Str → BaseBwuHandler Inner → BaseBwuHandler Inner
  unfolding drop_endpoint
  revert_initiator_state_for_endpoint upgrade_service_id endpoint_id h =
      if not (is_initiator_upgrade_service_id upgrade_service_id)
      then h
      else elim (Map.get upgrade_service_id h.active) [
        | none ↦ h
        | some ids ↦ if is_empty ids then h else drop_endpoint upgrade_service_id endpoint_id ids h
      ]

  unfoldable pub revert_responder_state : Str → BaseBwuHandler Inner → BaseBwuHandler Inner
  revert_responder_state service_id h = record h {
    inner = m.handle_revert_initiator_state_for_service service_id h.inner;
  }

  unfoldable pub create_upgraded_endpoint_channel :
      ClientProxy
      → Str
      → Str
      → UpgradePathInfo
      → BaseBwuHandler Inner
      → Option Chan × BaseBwuHandler Inner
  create_upgraded_endpoint_channel client service_id endpoint_id info h =
      let (created, inner) =
        m.create_upgraded_endpoint_channel client service_id endpoint_id info h.inner in
      (created, record h { inner = inner })

  unfoldable pub on_endpoint_disconnect :
      ClientProxy → Str → BaseBwuHandler Inner → BaseBwuHandler Inner
  on_endpoint_disconnect client endpoint_id h = record h {
    inner = m.on_endpoint_disconnect client endpoint_id h.inner;
  }

  -- `impl BwuHandler for BaseBwuHandler`
  abbrev pub base_handler : BwuHandler Chan (BaseBwuHandler Inner)
  base_handler = record {
    initialize_upgraded_medium_for_endpoint = initialize_upgraded_medium_for_endpoint;
    revert_initiator_state = revert_initiator_state;
    revert_initiator_state_for_endpoint = revert_initiator_state_for_endpoint;
    revert_responder_state = revert_responder_state;
    create_upgraded_endpoint_channel = create_upgraded_endpoint_channel;
    on_endpoint_disconnect = on_endpoint_disconnect;
  }
