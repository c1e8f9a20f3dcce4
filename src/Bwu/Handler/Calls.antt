-- ===== src/Bwu/Handler/Calls.antt =====
-- bwu/handler.rs: the states that a medium's handler reaches by the calls of its trait, and by what
-- happens outside of it between the calls.
use nearby_rs.Prelude.{Str}
use nearby_rs.Proto.Upgrade.{UpgradePathInfo}
use nearby_rs.Bwu.Client.{ClientProxy}
use nearby_rs.Bwu.Handler.{MediumBwuHandler}

pub data Reaches {Chan Inner : Type 0} (m : MediumBwuHandler Chan Inner)
    (outside : Inner → Inner → Type 0) (h₀ : Inner) : Inner → Type 0 where
  here : Reaches m outside h₀ h₀
  meanwhile : {h h' : Inner} → outside h h' → Reaches m outside h₀ h → Reaches m outside h₀ h'
  initialize :
      {h : Inner} (client : ClientProxy) (service_id endpoint_id : Str)
      → Reaches m outside h₀ h
      → Reaches m outside h₀
          (m.handle_initialize_upgraded_medium_for_endpoint client service_id endpoint_id h).1
  revert :
      {h : Inner} (service_id : Str)
      → Reaches m outside h₀ h
      → Reaches m outside h₀ (m.handle_revert_initiator_state_for_service service_id h)
  create :
      {h : Inner} (client : ClientProxy) (service_id endpoint_id : Str) (info : UpgradePathInfo)
      → Reaches m outside h₀ h
      → Reaches m outside h₀
          (m.create_upgraded_endpoint_channel client service_id endpoint_id info h).1
  disconnect :
      {h : Inner} (client : ClientProxy) (endpoint_id : Str)
      → Reaches m outside h₀ h
      → Reaches m outside h₀ (m.on_endpoint_disconnect client endpoint_id h)

-- What every call keeps.
pub record Keeps {Chan Inner : Type 0} (m : MediumBwuHandler Chan Inner)
    (outside : Inner → Inner → Type 0) (P : Inner → Type 0) : Type 0 where
  pub on_meanwhile : (h h' : Inner) → outside h h' → P h → P h'
  pub on_initialize :
      (client : ClientProxy) (service_id endpoint_id : Str) (h : Inner)
      → P h
      → P (m.handle_initialize_upgraded_medium_for_endpoint client service_id endpoint_id h).1
  pub on_revert :
      (service_id : Str) (h : Inner)
      → P h
      → P (m.handle_revert_initiator_state_for_service service_id h)
  pub on_create :
      (client : ClientProxy) (service_id endpoint_id : Str) (info : UpgradePathInfo) (h : Inner)
      → P h
      → P (m.create_upgraded_endpoint_channel client service_id endpoint_id info h).1
  pub on_disconnect :
      (client : ClientProxy) (endpoint_id : Str) (h : Inner)
      → P h
      → P (m.on_endpoint_disconnect client endpoint_id h)

-- It holds of every state that is reached from one where it holds.
pub Reaches-keeps :
    {Chan Inner : Type 0} {m : MediumBwuHandler Chan Inner} {outside : Inner → Inner → Type 0}
    {P : Inner → Type 0} {h₀ h : Inner}
    → Keeps m outside P
    → P h₀
    → Reaches m outside h₀ h
    → P h
Reaches-keeps k q here = q
Reaches-keeps k q (meanwhile o r) = k.on_meanwhile _ _ o (Reaches-keeps k q r)
Reaches-keeps k q (initialize client service_id endpoint_id r) =
    k.on_initialize client service_id endpoint_id _ (Reaches-keeps k q r)
Reaches-keeps k q (revert service_id r) = k.on_revert service_id _ (Reaches-keeps k q r)
Reaches-keeps k q (create client service_id endpoint_id info r) =
    k.on_create client service_id endpoint_id info _ (Reaches-keeps k q r)
Reaches-keeps k q (disconnect client endpoint_id r) =
    k.on_disconnect client endpoint_id _ (Reaches-keeps k q r)
