-- ===== src/Bwu/Handler/Active.antt =====
-- bwu/handler.rs: the endpoints that hold a medium open.
use nearby_rs.Prelude.{
  ◌≡◌, refl, arith, false, none, some, List, [], ◌∷◌, Str, str_eq, str_beq_iff, is_empty, unwrap_or,
  Option-cases, inl, inr,
}
use nearby_rs.Prelude.Map
use nearby_rs.Prelude.Map.{Map, get-insert, get-remove}
use nearby_rs.Prelude.Set
use nearby_rs.Bwu.ServiceId.{wrap_initiator_upgrade_service_id}
use nearby_rs.Bwu.ServiceId.Wrap.{is_initiator-wrap}
use nearby_rs.Bwu.Client.{ClientProxy}
use nearby_rs.Bwu.Handler.{
  MediumBwuHandler, BaseBwuHandler, initialize_upgraded_medium_for_endpoint, drop_endpoint,
  revert_initiator_state, revert_initiator_state_for_endpoint,
}

module _ {Chan Inner : Type 0} (m : MediumBwuHandler Chan Inner) where
  -- Every service id on record has an endpoint.
  abbrev pub AllHeld : BaseBwuHandler Inner → Type 0
  AllHeld h = (s : Str) (ids : List Str) → Map.get s h.active ≡ some ids → is_empty ids ≡ false

  insert-nonempty : (id : Str) (ids : List Str) → is_empty (Set.insert id ids) ≡ false
  unfolding Set.insert Set.contains
  insert-nonempty id [] = refl
  insert-nonempty id (j ∷ ids) = ground arith

  AllHeld-initialize :
      (client : ClientProxy) (service_id id : Str) (h : BaseBwuHandler Inner)
      → AllHeld h
      → AllHeld (initialize_upgraded_medium_for_endpoint m client service_id id h).1
  unfolding initialize_upgraded_medium_for_endpoint
  AllHeld-initialize client service_id id h held s ids =
      let wrapped = wrap_initiator_upgrade_service_id service_id in
      let before = unwrap_or (Map.get wrapped h.active) [] in
      ground (
        arith,
        held s ids,
        get-insert wrapped s (Set.insert id before) h.active,
        insert-nonempty id before,
      )

  AllHeld-revert_for_endpoint :
      (service_id id : Str) (h : BaseBwuHandler Inner)
      → AllHeld h
      → AllHeld (revert_initiator_state_for_endpoint m service_id id h)
  unfolding revert_initiator_state_for_endpoint drop_endpoint
  AllHeld-revert_for_endpoint service_id id h held s ids =
      elim (Option-cases (Map.get service_id h.active)) [
        | inl n ↦ ground (arith, held s ids)
        | inr (before, e) ↦ ground (
          arith,
          held s ids,
          get-insert service_id s (Set.remove id before) h.active,
          get-remove service_id s h.active,
        )
      ]

  -- Initialising a medium, reverting it for an endpoint and reverting it whole leave no service id
  -- on record without an endpoint, if there was none.
  pub AllHeld-steps :
      (client : ClientProxy) (service_id id : Str) (h : BaseBwuHandler Inner)
      → AllHeld h
      → AllHeld (initialize_upgraded_medium_for_endpoint m client service_id id h).1
        × AllHeld (revert_initiator_state_for_endpoint m service_id id h)
        × AllHeld (revert_initiator_state m h)
  unfolding revert_initiator_state Map.get
  AllHeld-steps client service_id id h held = (
    AllHeld-initialize client service_id id h held,
    AllHeld-revert_for_endpoint service_id id h held,
    λ s ids. ground arith,
  )

  -- The only endpoint of a service that initiated an upgrade and then reverts it reverts the medium
  -- for the service, and leaves nothing of the service on record: if the service id is not empty,
  -- the medium gave a frame, and the service had no endpoint.
  pub revert-initialize :
      (client : ClientProxy) (service_id id : Str) (h : BaseBwuHandler Inner)
      → is_empty service_id ≡ false
      → Map.get (wrap_initiator_upgrade_service_id service_id) h.active ≡ none
      → is_empty (initialize_upgraded_medium_for_endpoint m client service_id id h).0 ≡ false
      → (let wrapped = wrap_initiator_upgrade_service_id service_id in
          let h1 = (initialize_upgraded_medium_for_endpoint m client service_id id h).1 in
          let h2 = revert_initiator_state_for_endpoint m wrapped id h1 in
          (h2.inner ≡ m.handle_revert_initiator_state_for_service wrapped h1.inner)
          × (Map.get wrapped h2.active ≡ none))
  unfolding initialize_upgraded_medium_for_endpoint revert_initiator_state_for_endpoint
      drop_endpoint Set.insert Set.contains Set.remove
  revert-initialize client service_id id h n e f =
      let wrapped = wrap_initiator_upgrade_service_id service_id in
      ground (
        arith,
        is_initiator-wrap service_id,
        get-insert wrapped wrapped (id ∷ []) h.active,
        get-remove wrapped wrapped (Map.insert wrapped (id ∷ []) h.active),
        str_beq_iff wrapped wrapped,
        str_beq_iff id id,
      )
