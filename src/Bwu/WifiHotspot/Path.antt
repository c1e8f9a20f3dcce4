-- ===== src/Bwu/WifiHotspot/Path.antt =====
-- bwu/wifi_hotspot.rs, frames.rs and validator.rs: from the access point of the initiator to the
-- hotspot that the responder joins and the address that it dials.
use nearby_rs.Prelude.{
  ℕ, ◌<◌, ◌≡◌, refl, ap, sym, ◌∙◌, arith, true, false, if◌then◌else◌, Bool-cases, not, none, some,
  Str, str_eq, str_beq_iff, length, is_empty, is_some, Option, ◌>>=◌, Option-cases, inl, inr,
}
use nearby_rs.Prelude.Map
use nearby_rs.Prelude.Map.{get-insert}
use nearby_rs.Mediums.{Medium}
use nearby_rs.Proto.FrameEnums.{FrameType}
use nearby_rs.Proto.Codec.{Codec}
use nearby_rs.Proto.Upgrade.{UpgradePathInfo}
use nearby_rs.Frames.Defs.{Exception, ok}
use nearby_rs.Frames.Parse.{from_bytes, from_bytes-encode_v1, is_empty-encode_v1}
use nearby_rs.Frames.Receive.{path_frame}
use nearby_rs.Frames.Upgrade.{wifi_hotspot_path, for_bwu_wifi_hotspot_path_available}
use nearby_rs.Validator.{ensure_valid_offline_frame}
use nearby_rs.Validator.Text.{
  within_range, wifi_password_ssid_min_length, wifi_password_ssid_max_length,
}
use nearby_rs.Validator.Upgrade.{ensure_valid_bwu_wifi_hotspot_path_available, check_candidates}
use nearby_rs.Bwu.Client.{ClientProxy}
use nearby_rs.Bwu.StreamChannel.{Cipher}
use nearby_rs.Bwu.Tcp.Address.{IsIpv4Addr, port_of}
use nearby_rs.Bwu.Tcp.AddressText.{parse-to_string, is_valid_ipv4-to_string}
use nearby_rs.Bwu.Tcp.{Sockets, tcp_channel, start_listener}
use nearby_rs.Bwu.WifiHotspot.{
  SoftAp, HotspotCreds, HotspotListener, WifiHotspotBwuHandler, channel_name, listen_on, standing,
  advertised, path_available, joined, dial, handle_initialize_upgraded_medium_for_endpoint,
  create_upgraded_endpoint_channel,
}

-- Credentials that can be sent: a gateway of bytes, a port of 16 bits, and a password whose length
-- the validator accepts.
pub record IsSendable (hl : HotspotListener) : Type 0 where
  pub gateway : IsIpv4Addr hl.creds.gateway
  pub port : hl.listener.addr.port < 65_536
  pub password :
      within_range
        (length hl.creds.password)
        wifi_password_ssid_min_length
        wifi_password_ssid_max_length
      ≡ true

-- What the responder joins: the initiator's hotspot, as seen from outside.
abbrev pub outside : HotspotCreds → HotspotCreds
outside creds = record creds { bind_ip = creds.gateway }

joined-path :
    (hl : HotspotListener)
    → IsSendable hl
    → joined (wifi_hotspot_path (advertised hl) false)
      ≡ some (outside hl.creds, hl.listener.addr.port)
unfolding joined wifi_hotspot_path advertised port_of
joined-path hl k = ground (arith, parse-to_string hl.creds.gateway k.gateway, k.port)

valid-advertised :
    (hl : HotspotListener)
    → IsSendable hl
    → ensure_valid_bwu_wifi_hotspot_path_available (advertised hl) ≡ Exception.success
unfolding ensure_valid_bwu_wifi_hotspot_path_available advertised check_candidates
valid-advertised hl k =
    ground (arith, is_valid_ipv4-to_string hl.creds.gateway k.gateway, k.password)

from_bytes-path_available :
    (codec : Codec) (hl : HotspotListener)
    → IsSendable hl
    → from_bytes codec (path_available codec (some hl))
      ≡ ok (path_frame (wifi_hotspot_path (advertised hl) false))
unfolding path_available for_bwu_wifi_hotspot_path_available ensure_valid_offline_frame
from_bytes-path_available codec hl k =
    from_bytes-encode_v1 codec FrameType.bandwidth_upgrade_negotiation _
    ∙ ground (arith, is_valid_ipv4-to_string hl.creds.gateway k.gateway, k.password)

-- Whether a path is sent.
is_empty-path_available :
    (codec : Codec) (o : Option HotspotListener)
    → is_empty (path_available codec o) ≡ not (is_some o)
unfolding path_available for_bwu_wifi_hotspot_path_available
is_empty-path_available codec none = refl
is_empty-path_available codec (some hl) = is_empty-encode_v1 codec _ _

module _ (s : Sockets) {Sink Ap : Type 0} (softap : SoftAp Ap) where
  listen_on-record :
      (id : Str) (creds : HotspotCreds) (h : WifiHotspotBwuHandler s Sink Ap)
      → Map.get id h.listeners ≡ none
      → (listen_on s softap id creds h).0 ≡ Map.get id (listen_on s softap id creds h).1.listeners
  unfolding listen_on
  listen_on-record id creds h e =
      let started =
        (start_listener s creds.bind_ip id channel_name Medium.wifi_hotspot h.sink h.system).0 in
      elim (Option-cases started) [
        | inl n ↦ ground (arith, e, n)
        | inr (l, n) ↦
            let hl : HotspotListener = record { listener = l; creds = creds } in
            ground (arith, e, n, get-insert id id hl h.listeners, str_beq_iff id id)
      ]

  -- What is advertised is the listener on record afterwards.
  standing-record :
      (id : Str) (h : WifiHotspotBwuHandler s Sink Ap)
      → (standing s softap id h).0 ≡ Map.get id (standing s softap id h).1.listeners
  unfolding standing
  standing-record id h = elim (Option-cases (Map.get id h.listeners)) [
    | inr (hl, e) ↦ rw (e, standing) (sym e)
    | inl e ↦ elim (Option-cases (softap.start id h.softap).0) [
      | inl n ↦ rw (e, n, standing) (sym e)
      | inr (creds, n) ↦
          rw (e, n, standing)
            (listen_on-record id creds (record h { softap = (softap.start id h.softap).1 }) e)
    ]
  ]

  module _ {Session : Type 0} (codec : Codec) (session : Cipher Session) where
    initialize-record :
        (client : ClientProxy) (id endpoint_id : Str) (h : WifiHotspotBwuHandler s Sink Ap)
        → let (frame, h') =
            handle_initialize_upgraded_medium_for_endpoint s softap codec session client id
              endpoint_id h in
          frame ≡ path_available codec (Map.get id h'.listeners)
    unfolding handle_initialize_upgraded_medium_for_endpoint
    initialize-record client id endpoint_id h = ap (path_available codec) (standing-record id h)

    create-joined :
        (client : ClientProxy) (id endpoint_id : Str) (info : UpgradePathInfo)
        (creds : HotspotCreds) (port : ℕ) (g : WifiHotspotBwuHandler s Sink Ap)
        → joined info ≡ some (creds, port)
        → (create_upgraded_endpoint_channel s softap codec session client id endpoint_id info g).0
          ≡ (if (softap.connect_as_sta creds g.softap).0
              then ((s.connect (record { ip = creds.gateway; port = port }) g.system.os).0 >>= λ t.
                  tcp_channel s codec session t id channel_name Medium.wifi_hotspot)
              else none)
    unfolding create_upgraded_endpoint_channel dial
    create-joined client id endpoint_id info creds port g e =
        elim (Bool-cases (softap.connect_as_sta creds g.softap).0) [
          | inl c ↦ rw (e, c, create_upgraded_endpoint_channel) refl
          | inr c ↦ rw (e, c, create_upgraded_endpoint_channel) refl
        ]

    -- An initialisation gives an empty frame exactly if the service has no access point with a
    -- listener afterwards.
    pub is_empty-initialize :
        (client : ClientProxy) (id endpoint_id : Str) (h : WifiHotspotBwuHandler s Sink Ap)
        → let (frame, h') =
            handle_initialize_upgraded_medium_for_endpoint s softap codec session client id
              endpoint_id h in
          is_empty frame ≡ not (Map.contains_key id h'.listeners)
    is_empty-initialize client id endpoint_id h =
        ap is_empty (initialize-record client id endpoint_id h) ∙ is_empty-path_available codec _

    -- If a service has an access point with a listener after its initialisation, whose credentials
    -- can be sent, the frame is a path that any receiver accepts, and from it a responder joins
    -- exactly that access point, by its network name, password and frequency; if it joins, it dials
    -- the gateway at the listener's port.
    pub connect_as_sta-initialize :
        (client client' : ClientProxy) (id endpoint_id id' endpoint_id' : Str)
        (h g : WifiHotspotBwuHandler s Sink Ap) (hl : HotspotListener)
        → Map.get id
            (handle_initialize_upgraded_medium_for_endpoint s softap codec session client id
              endpoint_id h).1.listeners
          ≡ some hl
        → IsSendable hl
        → (info : UpgradePathInfo) × (from_bytes codec
              (handle_initialize_upgraded_medium_for_endpoint s softap codec session client id
                endpoint_id h).0
            ≡ ok (path_frame info))
          × ((create_upgraded_endpoint_channel s softap codec session client' id' endpoint_id' info
                g).0
              ≡ (if (softap.connect_as_sta (outside hl.creds) g.softap).0
                  then ((s.connect
                        (record { ip = hl.creds.gateway; port = hl.listener.addr.port })
                        g.system.os).0
                      >>= λ t. tcp_channel s codec session t id' channel_name Medium.wifi_hotspot)
                  else none))
    connect_as_sta-initialize client client' id endpoint_id id' endpoint_id' h g hl e k = (
      wifi_hotspot_path (advertised hl) false,
      rw (initialize-record client id endpoint_id h, e) (from_bytes-path_available codec hl k),
      create-joined client' id' endpoint_id' _ _ _ g (joined-path hl k),
    )
