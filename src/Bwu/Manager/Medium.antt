-- ===== src/Bwu/Manager/Medium.antt =====
-- bwu/manager.rs: the upgrade medium of an endpoint, the handlers, and the revert.
use nearby_rs.Prelude.{
  Bool, not, ◌&&◌, ◌||◌, none, some, Str, ◌==◌, str_eq, if◌then◌else◌, unwrap_or, ◌>>=◌,
}
use nearby_rs.Prelude.Int.{pos}
use nearby_rs.Prelude.Map
use nearby_rs.Mediums.{Medium, medium_eq}
use nearby_rs.Proto.MediumEnums.{
  UpgradePathMedium, upgrade_path_medium_number, upgrade_path_medium_try_from,
}
use nearby_rs.Proto.Upgrade.{UpgradePathInfo, empty_upgrade_path_info}
use nearby_rs.Frames.Mediums.{
  medium_to_upgrade_path_info_medium, upgrade_path_info_medium_to_medium,
}
use nearby_rs.Bwu.ServiceId.{is_initiator_upgrade_service_id}
use nearby_rs.Bwu.Platform.{Platform}
use nearby_rs.Bwu.World.{World}

unfoldable pub upi_medium : UpgradePathInfo → Medium
unfolding upgrade_path_info_medium_to_medium
upi_medium info =
    upgrade_path_info_medium_to_medium
      (unwrap_or (info.medium >>= upgrade_path_medium_try_from) UpgradePathMedium.unknown_medium)

unfoldable pub upgrade_path_info_for_medium : Medium → UpgradePathInfo
unfolding medium_to_upgrade_path_info_medium
upgrade_path_info_for_medium medium = record empty_upgrade_path_info {
  medium = some (pos (upgrade_path_medium_number (medium_to_upgrade_path_info_medium medium)));
}

module _ (p : Platform) where
  open p use {Handler, handler}

  unfoldable pub get_bwu_medium_for_endpoint : Str → World p → Medium
  get_bwu_medium_for_endpoint endpoint_id w =
      if w.config.support_multiple_bwu_mediums
      then unwrap_or (Map.get endpoint_id w.endpoint_id_to_bwu_medium) Medium.unknown_medium
      else w.medium

  unfoldable pub set_bwu_medium_for_endpoint : Str → Medium → World p → World p
  set_bwu_medium_for_endpoint endpoint_id medium w =
      if w.config.support_multiple_bwu_mediums
      then record w {
        endpoint_id_to_bwu_medium = Map.insert endpoint_id medium w.endpoint_id_to_bwu_medium;
      }
      else record w { medium = medium }

  unfoldable pub has_handler_for_medium : Medium → World p → Bool
  has_handler_for_medium medium w =
      not (medium == Medium.unknown_medium) && Map.contains_key medium w.handlers

  -- A call of one handler's method. Its callers have tested that the handler is there, so the
  -- `unwrap` of `get_mut` does not fail.
  abbrev pub update_handler : Medium → (Handler → Handler) → World p → World p
  update_handler medium f w = elim (Map.get medium w.handlers) [
    | none ↦ w
    | some h ↦ record w { handlers = Map.insert medium (f h) w.handlers }
  ]

  -- The revert without `support_multiple_bwu_mediums`: of all services.
  unfoldable pub revert_all_services : Medium → World p → World p
  unfolding has_handler_for_medium
  revert_all_services medium w =
      let w' = record w { medium = Medium.unknown_medium } in
      if has_handler_for_medium medium w'
      then update_handler medium handler.revert_initiator_state w'
      else w'

  -- The revert with `support_multiple_bwu_mediums`: of one endpoint.
  unfoldable pub revert_one_endpoint : Medium → Str → Str → World p → World p
  unfolding has_handler_for_medium
  revert_one_endpoint medium service_id endpoint_id w =
      let w' = record w {
        endpoint_id_to_bwu_medium = Map.remove endpoint_id w.endpoint_id_to_bwu_medium;
      } in
      if not (has_handler_for_medium medium w')
      then w'
      else if not (is_initiator_upgrade_service_id service_id)
      then (if medium == Medium.wifi_hotspot || medium == Medium.wifi_direct
          then update_handler medium (handler.revert_responder_state service_id) w'
          else w')
      else update_handler medium
          (handler.revert_initiator_state_for_endpoint service_id endpoint_id) w'

  unfoldable pub revert_bwu_medium_for_endpoint : Str → Str → World p → World p
  unfolding get_bwu_medium_for_endpoint revert_all_services revert_one_endpoint
  revert_bwu_medium_for_endpoint service_id endpoint_id w =
      let medium = get_bwu_medium_for_endpoint endpoint_id w in
      if not w.config.support_multiple_bwu_mediums
      then revert_all_services medium w
      else revert_one_endpoint medium service_id endpoint_id w
