-- ===== src/Frames/Receive.antt =====
-- frames.rs and validator.rs: what a receiver gets from the negotiation frames that are built.
use nearby_rs.Prelude.{
  ◌≡◌, refl, ◌∙◌, arith, Bool, some, List, [], ◌∷◌, Bytes, Str, if◌then◌else◌, is_empty, last,
}
use nearby_rs.Proto.FrameEnums.{FrameType, EventType}
use nearby_rs.Proto.Metadata.{LocationHint}
use nearby_rs.Proto.Upgrade.{UpgradePathInfo, BandwidthUpgradeNegotiationFrame}
use nearby_rs.Proto.Frame.{OfflineFrame}
use nearby_rs.Proto.Codec.{Codec}
use nearby_rs.Validator.{ensure_valid_offline_frame}
use nearby_rs.Frames.Defs.{ServiceAddress, Exception, ok, err}
use nearby_rs.Frames.Parse.{from_bytes, v1_offline_frame, from_bytes-encode_v1}
use nearby_rs.Frames.Upgrade.{
  event_frame, introduction, wifi_lan_path, wifi_aware_path, bluetooth_path, webrtc_path,
  for_bwu_wifi_lan_path_available, for_bwu_wifi_aware_path_available,
  for_bwu_bluetooth_path_available, for_bwu_webrtc_path_available, for_bwu_last_write,
  for_bwu_safe_to_close, for_bwu_introduction, for_bwu_introduction_ack,
}

-- The frame around a negotiation frame.
abbrev pub negotiation_frame : BandwidthUpgradeNegotiationFrame → OfflineFrame
negotiation_frame sub =
    v1_offline_frame FrameType.bandwidth_upgrade_negotiation
      λ v1. record v1 { bandwidth_upgrade_negotiation = some sub }

abbrev pub path_frame : UpgradePathInfo → OfflineFrame
path_frame info =
    negotiation_frame
      (record (event_frame EventType.upgrade_path_available) { upgrade_path_info = some info })

last-cons :
    (a : ServiceAddress) (l : List ServiceAddress) → (x : ServiceAddress) × (last (a ∷ l) ≡ some x)
last-cons a [] = (a, refl)
last-cons a (b ∷ l) = last-cons b l

module _ (codec : Codec) where
  -- An introduction of any endpoint is received as it was built.
  pub from_bytes-introduction :
      (id last_id : Str) (disabling : Bool)
      → from_bytes codec (for_bwu_introduction codec id last_id disabling)
        ≡ ok (
            negotiation_frame (record (event_frame EventType.client_introduction) {
              client_introduction = some (introduction id last_id disabling);
            }))
  unfolding for_bwu_introduction introduction ensure_valid_offline_frame
  from_bytes-introduction id last_id disabling =
      from_bytes-encode_v1 codec FrameType.bandwidth_upgrade_negotiation _

  -- The frames of the handshake are received as they were built: a last write, a safe to close, and
  -- the introduction of any endpoint with its acknowledgement.
  pub from_bytes-handshake :
      (id last_id : Str) (disabling : Bool)
      → (from_bytes codec (for_bwu_last_write codec)
          ≡ ok (negotiation_frame (event_frame EventType.last_write_to_prior_channel)))
        × (from_bytes codec (for_bwu_safe_to_close codec)
            ≡ ok (negotiation_frame (event_frame EventType.safe_to_close_prior_channel)))
        × (from_bytes codec (for_bwu_introduction_ack codec)
            ≡ ok (negotiation_frame (event_frame EventType.client_introduction_ack)))
        × (from_bytes codec (for_bwu_introduction codec id last_id disabling)
            ≡ ok (
                negotiation_frame (record (event_frame EventType.client_introduction) {
                  client_introduction = some (introduction id last_id disabling);
                })))
  unfolding for_bwu_last_write for_bwu_safe_to_close for_bwu_introduction_ack
      ensure_valid_offline_frame
  from_bytes-handshake id last_id disabling = (
    from_bytes-encode_v1 codec FrameType.bandwidth_upgrade_negotiation _,
    from_bytes-encode_v1 codec FrameType.bandwidth_upgrade_negotiation _,
    from_bytes-encode_v1 codec FrameType.bandwidth_upgrade_negotiation _,
    from_bytes-introduction id last_id disabling,
  )

  -- A Wi-Fi LAN path is received as it was built if it has an address, and is refused as an
  -- invalid protocol buffer if it has none.
  pub from_bytes-wifi_lan_path :
      (addresses : List ServiceAddress)
      → from_bytes codec (for_bwu_wifi_lan_path_available codec addresses) ≡ (
          if is_empty addresses
          then err Exception.invalid_protocol_buffer
          else ok (path_frame (wifi_lan_path addresses)))
  unfolding for_bwu_wifi_lan_path_available ensure_valid_offline_frame
  from_bytes-wifi_lan_path [] = from_bytes-encode_v1 codec FrameType.bandwidth_upgrade_negotiation _
  from_bytes-wifi_lan_path (a ∷ l) =
      let (x, e) = last-cons a l in
      from_bytes-encode_v1 codec FrameType.bandwidth_upgrade_negotiation _ ∙ ground (arith, e)

  -- Paths over Bluetooth, Wi-Fi Aware and WebRTC are received as they were built, whatever they say.
  pub from_bytes-open_paths :
      (service_id mac_address password peer_id : Str) (service_info : Bytes) (hint : LocationHint)
      (disabling : Bool)
      → (from_bytes codec (for_bwu_bluetooth_path_available codec service_id mac_address)
          ≡ ok (path_frame (bluetooth_path service_id mac_address)))
        × (from_bytes codec
              (for_bwu_wifi_aware_path_available codec service_id service_info password disabling)
            ≡ ok (path_frame (wifi_aware_path service_id service_info password disabling)))
        × (from_bytes codec (for_bwu_webrtc_path_available codec peer_id hint)
            ≡ ok (path_frame (webrtc_path peer_id hint)))
  unfolding for_bwu_bluetooth_path_available for_bwu_wifi_aware_path_available
      for_bwu_webrtc_path_available ensure_valid_offline_frame
  from_bytes-open_paths service_id mac_address password peer_id service_info hint disabling = (
    from_bytes-encode_v1 codec FrameType.bandwidth_upgrade_negotiation _,
    from_bytes-encode_v1 codec FrameType.bandwidth_upgrade_negotiation _,
    from_bytes-encode_v1 codec FrameType.bandwidth_upgrade_negotiation _,
  )
