-- ===== src/Bwu/Client.antt =====
-- bwu/client.rs: the connection state of each endpoint.
use nearby_rs.Prelude.{
  Bool, true, false, ◌&&◌, some, List, [], ◌∷◌, ◌++◌, Str, str_eq, unwrap_or, ◌>>=◌,
}
use nearby_rs.Prelude.Int.{ℤ}
use nearby_rs.Prelude.Map
use nearby_rs.Prelude.Map.{Map}
use nearby_rs.Mediums.{Medium}

pub record EndpointState : Type 0 where
  pub initiated : Bool
  pub connected : Bool
  pub local_accepted : Bool
  pub remote_accepted : Bool
  pub is_incoming : Bool
  pub auto_upgrade_bandwidth : Bool
  pub upgrade_mediums : List Medium

abbrev pub default_endpoint_state : EndpointState
default_endpoint_state = record {
  initiated = false;
  connected = false;
  local_accepted = false;
  remote_accepted = false;
  is_incoming = false;
  auto_upgrade_bandwidth = false;
  upgrade_mediums = [];
}

pub record ClientProxy : Type 0 where
  pub client_id : ℤ
  pub local_endpoint_id : Str
  pub last_local_endpoint_id : Str
  pub endpoints : Map Str EndpointState
  pub bandwidth_changed : List (Str × Medium)

abbrev pub new : ℤ → Str → ClientProxy
new client_id local_endpoint_id = record {
  client_id = client_id;
  local_endpoint_id = local_endpoint_id;
  last_local_endpoint_id = local_endpoint_id;
  endpoints = [];
  bandwidth_changed = [];
}

-- A write through `entry(endpoint_id).or_default()`.
abbrev modify_entry : Str → (EndpointState → EndpointState) → ClientProxy → ClientProxy
modify_entry endpoint_id f client = record client {
  endpoints =
      Map.insert endpoint_id
        (f (unwrap_or (Map.get endpoint_id client.endpoints) default_endpoint_state))
        client.endpoints;
}

unfoldable pub on_connection_initiated : Str → Bool → Bool → ClientProxy → ClientProxy
on_connection_initiated endpoint_id is_incoming auto_upgrade_bandwidth =
    modify_entry endpoint_id λ e. record e {
      initiated = true;
      is_incoming = is_incoming;
      auto_upgrade_bandwidth = auto_upgrade_bandwidth;
    }

unfoldable pub local_endpoint_accepted_connection : Str → ClientProxy → ClientProxy
local_endpoint_accepted_connection endpoint_id =
    modify_entry endpoint_id λ e. record e { local_accepted = true }

unfoldable pub remote_endpoint_accepted_connection : Str → ClientProxy → ClientProxy
remote_endpoint_accepted_connection endpoint_id =
    modify_entry endpoint_id λ e. record e { remote_accepted = true }

unfoldable pub on_connection_accepted : Str → ClientProxy → ClientProxy
on_connection_accepted endpoint_id = modify_entry endpoint_id λ e. record e { connected = true }

unfoldable pub on_disconnected : Str → ClientProxy → ClientProxy
on_disconnected endpoint_id client = record client {
  endpoints = Map.remove endpoint_id client.endpoints;
}

-- `endpoints.get(endpoint_id).map(f).unwrap_or(d)`
abbrev query {ℓ} : {A : Type ℓ} → (EndpointState → A) → A → Str → ClientProxy → A
query f d endpoint_id client =
    unwrap_or (Map.get endpoint_id client.endpoints >>= λ e. some (f e)) d

unfoldable pub is_connection_accepted : Str → ClientProxy → Bool
is_connection_accepted = query (λ e. e.local_accepted && e.remote_accepted) false

unfoldable pub is_connected_to_endpoint : Str → ClientProxy → Bool
is_connected_to_endpoint = query (λ e. e.connected) false

unfoldable pub is_incoming_connection : Str → ClientProxy → Bool
is_incoming_connection = query (λ e. e.is_incoming) false

unfoldable pub auto_upgrade_bandwidth : Str → ClientProxy → Bool
auto_upgrade_bandwidth = query (λ e. e.auto_upgrade_bandwidth) false

unfoldable pub set_upgrade_mediums : Str → List Medium → ClientProxy → ClientProxy
set_upgrade_mediums endpoint_id mediums =
    modify_entry endpoint_id λ e. record e { upgrade_mediums = mediums }

unfoldable pub get_upgrade_mediums : Str → ClientProxy → List Medium
get_upgrade_mediums = query (λ e. e.upgrade_mediums) []

unfoldable pub on_bandwidth_changed : Str → Medium → ClientProxy → ClientProxy
on_bandwidth_changed endpoint_id medium client = record client {
  bandwidth_changed = client.bandwidth_changed ++ (endpoint_id, medium) ∷ [];
}
