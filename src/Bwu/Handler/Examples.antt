-- ===== src/Bwu/Handler/Examples.antt =====
-- Service ids, and the bookkeeping of a handler of the oracle tests.
use nearby_rs.Prelude.{◌≡◌, refl, arith, true, none, [], ◌∷◌, Str, ascii, str_eq}
use nearby_rs.Prelude.Int.{pos}
use nearby_rs.Prelude.Map
use nearby_rs.Mediums.{Medium}
use nearby_rs.Proto.Sample.{sample_codec}
use nearby_rs.Bwu.ServiceId.{
  is_initiator_upgrade_service_id, wrap_initiator_upgrade_service_id,
  unwrap_initiator_upgrade_service_id,
}
use nearby_rs.Bwu.ServiceId.Wrap.{unwrap-wrap}
use nearby_rs.Bwu.Client
use nearby_rs.Bwu.Client.{ClientProxy}
use nearby_rs.Bwu.Handler.{
  BaseBwuHandler, MediumBwuHandler, initialize_upgraded_medium_for_endpoint,
  revert_initiator_state_for_endpoint, revert_initiator_state,
}
use nearby_rs.Bwu.Handler.Active.{AllHeld, AllHeld-steps, revert-initialize}
use nearby_rs.Bwu.Testing.{FakeBwuHandler, FakeEndpointChannel, new_fake_handler, fake_handler}

abbrev service : Str
service = ascii "service"

unwrap-wrap_example :
    (unwrap_initiator_upgrade_service_id (wrap_initiator_upgrade_service_id service) ≡ service)
    × (wrap_initiator_upgrade_service_id (wrap_initiator_upgrade_service_id service)
        ≡ wrap_initiator_upgrade_service_id service)
    × (is_initiator_upgrade_service_id (wrap_initiator_upgrade_service_id service) ≡ true)
unfolding is_initiator_upgrade_service_id
unwrap-wrap_example = unwrap-wrap service refl

abbrev m : MediumBwuHandler FakeEndpointChannel FakeBwuHandler
m = record (fake_handler sample_codec) {
  handle_initialize_upgraded_medium_for_endpoint = λ _ _ _ h. (1 ∷ [], h);
}

abbrev client : ClientProxy
client = Client.new (pos 1) (ascii "WXYZ")

abbrev handler : BaseBwuHandler FakeBwuHandler
handler = record { inner = new_fake_handler Medium.wifi_lan; active = [] }

AllHeld-handler : AllHeld m handler
unfolding Map.get
AllHeld-handler = λ s ids. ground arith

AllHeld-steps_example :
    AllHeld m (initialize_upgraded_medium_for_endpoint m client service (ascii "ABCD") handler).1
    × AllHeld m (revert_initiator_state_for_endpoint m service (ascii "ABCD") handler)
    × AllHeld m (revert_initiator_state m handler)
AllHeld-steps_example = AllHeld-steps m client service (ascii "ABCD") handler AllHeld-handler

revert-initialize_example :
    (let wrapped = wrap_initiator_upgrade_service_id service in
      let h1 =
        (initialize_upgraded_medium_for_endpoint m client service (ascii "ABCD") handler).1 in
      let h2 = revert_initiator_state_for_endpoint m wrapped (ascii "ABCD") h1 in
      (h2.inner ≡ m.handle_revert_initiator_state_for_service wrapped h1.inner)
      × (Map.get wrapped h2.active ≡ none))
unfolding Map.get initialize_upgraded_medium_for_endpoint
revert-initialize_example = revert-initialize m client service (ascii "ABCD") handler refl refl refl
