-- ===== src/Validator/Upgrade.antt =====
-- validator.rs: bandwidth upgrade negotiation frames.
use nearby_rs.Prelude.{
  Bool, true, false, not, ◌&&◌, ◌||◌, Option, none, some, List, [], ◌∷◌, Str, ascii, nat_beq,
  if◌then◌else◌, length, is_empty, is_none, unwrap_or, ltb, ◌>>=◌,
}
use nearby_rs.Prelude.Int.{ℤ, pos, negsuc, int_ltb}
use nearby_rs.Proto.FrameEnums.{EventType, event_type_try_from}
use nearby_rs.Proto.MediumEnums.{UpgradePathMedium, upgrade_path_medium_try_from}
use nearby_rs.Proto.Metadata.{ServiceAddress}
use nearby_rs.Proto.Upgrade.{
  WifiHotspotCredentials, WifiLanSocket, BluetoothCredentials, WifiAwareCredentials,
  WifiDirectCredentials, WebRtcCredentials, UpgradePathInfo, ClientIntroduction,
  BandwidthUpgradeNegotiationFrame,
}
use nearby_rs.Frames.Defs.{Exception}
use nearby_rs.Validator.Text.{
  within_range, is_valid_ipv4, matches_wifi_direct_ssid, wifi_direct_ssid_max_length,
  wifi_password_ssid_min_length, wifi_password_ssid_max_length, wifi_direct_pin_min_length,
  wifi_direct_pin_max_length,
}

abbrev invalid : Exception
invalid = Exception.invalid_protocol_buffer

abbrev bad_candidate : ServiceAddress → Bool
bad_candidate candidate =
    is_none candidate.ip_address
    || is_none candidate.port
    || (let len = length (unwrap_or candidate.ip_address []) in
        not (nat_beq len 4) && not (nat_beq len 16))

-- The loop over `address_candidates`.
unfoldable pub check_candidates : List ServiceAddress → Exception
check_candidates [] = Exception.success
check_candidates (candidate ∷ rest) =
    if bad_candidate candidate then invalid else check_candidates rest

abbrev password_in_range : Option Str → Bool
password_in_range none = false
password_in_range (some p) =
    within_range (length p) wifi_password_ssid_min_length wifi_password_ssid_max_length

unfoldable pub ensure_valid_bwu_wifi_hotspot_path_available : WifiHotspotCredentials → Exception
unfolding within_range check_candidates
ensure_valid_bwu_wifi_hotspot_path_available creds =
    let gateway = unwrap_or creds.gateway (ascii "0.0.0.0") in
    if is_none creds.ssid
    then invalid
    else if not (password_in_range creds.password)
    then invalid
    else if is_none creds.gateway && is_empty creds.address_candidates
    then invalid
    else if not (is_empty gateway) && not (is_valid_ipv4 gateway)
    then invalid
    else check_candidates creds.address_candidates

unfoldable pub ensure_valid_bwu_wifi_lan_path_available : WifiLanSocket → Exception
ensure_valid_bwu_wifi_lan_path_available socket =
    let wifi_port = unwrap_or socket.wifi_port (pos 0) in
    if (is_none socket.ip_address || not (int_ltb (pos 0) wifi_port))
      && is_empty socket.address_candidates
    then invalid
    else Exception.success

unfoldable pub ensure_valid_bwu_wifi_aware_path_available : WifiAwareCredentials → Exception
ensure_valid_bwu_wifi_aware_path_available creds =
    if is_none creds.service_id
    then invalid
    else if is_none creds.service_info
    then invalid
    else Exception.success

-- `creds.frequency.map_or(true, |f| f < -1)`
abbrev bad_frequency : Option ℤ → Bool
bad_frequency none = true
bad_frequency (some f) = int_ltb f (negsuc 0)

abbrev ssid_valid : Option Str → Bool
ssid_valid none = false
ssid_valid (some ssid) =
    ltb (length ssid) wifi_direct_ssid_max_length && matches_wifi_direct_ssid ssid

abbrev device_name_valid : Option Str → Bool
device_name_valid none = false
device_name_valid (some d) = ltb (length d) wifi_direct_ssid_max_length

abbrev pin_valid : Option Str → Bool
pin_valid none = false
pin_valid (some p) = within_range (length p) wifi_direct_pin_min_length wifi_direct_pin_max_length

unfoldable pub ensure_valid_bwu_wifi_direct_path_available : WifiDirectCredentials → Exception
unfolding within_range
ensure_valid_bwu_wifi_direct_path_available creds =
    if bad_frequency creds.frequency
    then invalid
    else if ssid_valid creds.ssid && password_in_range creds.password
        || device_name_valid creds.device_name && pin_valid creds.pin
    then Exception.success
    else invalid

unfoldable pub ensure_valid_bwu_bluetooth_path_available : BluetoothCredentials → Exception
ensure_valid_bwu_bluetooth_path_available creds =
    if is_none creds.service_name
    then invalid
    else if is_none creds.mac_address
    then invalid
    else Exception.success

unfoldable pub ensure_valid_bwu_web_rtc_path_available : WebRtcCredentials → Exception
ensure_valid_bwu_web_rtc_path_available creds =
    if is_none creds.peer_id then invalid else Exception.success

-- `match field { Some(x) => check(x), None => InvalidProtocolBuffer }`
abbrev pub required {ℓ} : {A : Type ℓ} → Option A → (A → Exception) → Exception
required none check = invalid
required (some a) check = check a

-- The match of `ensure_valid_bwu_path_available_frame` on the medium.
unfoldable pub check_path : UpgradePathMedium → UpgradePathInfo → Exception
unfolding ensure_valid_bwu_wifi_hotspot_path_available ensure_valid_bwu_wifi_lan_path_available
    ensure_valid_bwu_wifi_aware_path_available ensure_valid_bwu_wifi_direct_path_available
    ensure_valid_bwu_bluetooth_path_available ensure_valid_bwu_web_rtc_path_available
check_path UpgradePathMedium.wifi_hotspot info =
    required info.wifi_hotspot_credentials ensure_valid_bwu_wifi_hotspot_path_available
check_path UpgradePathMedium.wifi_lan info =
    required info.wifi_lan_socket ensure_valid_bwu_wifi_lan_path_available
check_path UpgradePathMedium.wifi_aware info =
    required info.wifi_aware_credentials ensure_valid_bwu_wifi_aware_path_available
check_path UpgradePathMedium.wifi_direct info =
    required info.wifi_direct_credentials ensure_valid_bwu_wifi_direct_path_available
check_path UpgradePathMedium.bluetooth info =
    required info.bluetooth_credentials ensure_valid_bwu_bluetooth_path_available
check_path UpgradePathMedium.web_rtc info =
    required info.web_rtc_credentials ensure_valid_bwu_web_rtc_path_available
check_path _ info = Exception.success

unfoldable pub ensure_valid_bwu_path_available_frame : UpgradePathInfo → Exception
unfolding check_path
ensure_valid_bwu_path_available_frame info =
    required (info.medium >>= upgrade_path_medium_try_from) (λ medium. check_path medium info)

unfoldable pub ensure_valid_bwu_client_introduction_frame : ClientIntroduction → Exception
ensure_valid_bwu_client_introduction_frame client_introduction =
    if is_none client_introduction.endpoint_id then invalid else Exception.success

-- The match of `ensure_valid_bwu_negotiation_frame` on the event type.
unfoldable pub check_event : EventType → BandwidthUpgradeNegotiationFrame → Exception
unfolding ensure_valid_bwu_path_available_frame ensure_valid_bwu_client_introduction_frame
check_event EventType.upgrade_path_available frame =
    required frame.upgrade_path_info ensure_valid_bwu_path_available_frame
check_event EventType.client_introduction frame =
    required frame.client_introduction ensure_valid_bwu_client_introduction_frame
check_event _ frame = Exception.success

unfoldable pub ensure_valid_bwu_negotiation_frame : BandwidthUpgradeNegotiationFrame → Exception
unfolding check_event
ensure_valid_bwu_negotiation_frame frame =
    required (frame.event_type >>= event_type_try_from) (λ event_type. check_event event_type frame)
