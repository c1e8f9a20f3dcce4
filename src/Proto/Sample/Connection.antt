-- ===== src/Proto/Sample/Connection.antt =====
-- A serial form of the messages of Proto/Connection, for the sample codec.
use nearby_rs.Prelude.{◌≡◌, refl, Option, none, some, List, Str, Bytes}
use nearby_rs.Prelude.Int.{ℤ}
use nearby_rs.Prelude.Serial.{
  Serial, int_serial, bytes_serial, option_serial, list_serial, pair_serial, iso_serial,
}
use nearby_rs.Proto.Sample.Metadata.{location_hint_serial, medium_metadata_serial, os_info_serial}
use nearby_rs.Proto.Metadata.{MediumMetadata, LocationHint, OsInfo}
use nearby_rs.Proto.Connection.{
  ConnectionsDevice, PresenceDevice, ConnectionRequestFrame, ConnectionResponseFrame, Device,
  empty_connections_device,
}

pub connections_device_serial : Serial ConnectionsDevice
connections_device_serial =
    iso_serial {B = (Option Str) × ((Option ℤ) × ((Option Bytes) × (Option Bytes)))}
      (λ r. (r.endpoint_id, (r.endpoint_type, (r.connectivity_info_list, r.endpoint_info))))
      (λ t. record {
        endpoint_id = t.0;
        endpoint_type = t.1.0;
        connectivity_info_list = t.1.1.0;
        endpoint_info = t.1.1.1;
      })
      (λ _. refl)
      (pair_serial (option_serial bytes_serial) (
        pair_serial (option_serial int_serial)
          (pair_serial (option_serial bytes_serial) (option_serial bytes_serial))))

pub presence_device_serial : Serial PresenceDevice
presence_device_serial =
    iso_serial
      {B = (Option Str)
        × ((Option ℤ)
            × ((Option Bytes)
                × ((Option ℤ)
                    × ((Option Str)
                        × ((Option ℤ) × ((Option Str) × ((List ℤ) × ((List ℤ) × (List ℤ)))))))))}
      (λ r. (
        r.endpoint_id,
        (
          r.endpoint_type,
          (
            r.connectivity_info_list,
            (
              r.device_id,
              (
                r.device_name,
                (
                  r.device_type,
                  (r.device_image_url, (r.discovery_medium, (r.actions, r.identity_type))),
                ),
              ),
            ),
          ),
        ),
      ))
      (λ t. record {
        endpoint_id = t.0;
        endpoint_type = t.1.0;
        connectivity_info_list = t.1.1.0;
        device_id = t.1.1.1.0;
        device_name = t.1.1.1.1.0;
        device_type = t.1.1.1.1.1.0;
        device_image_url = t.1.1.1.1.1.1.0;
        discovery_medium = t.1.1.1.1.1.1.1.0;
        actions = t.1.1.1.1.1.1.1.1.0;
        identity_type = t.1.1.1.1.1.1.1.1.1;
      })
      (λ _. refl)
      (pair_serial (option_serial bytes_serial) (
        pair_serial (option_serial int_serial) (
          pair_serial (option_serial bytes_serial) (
            pair_serial (option_serial int_serial) (
              pair_serial (option_serial bytes_serial) (
                pair_serial (option_serial int_serial) (
                  pair_serial (option_serial bytes_serial) (
                    pair_serial (list_serial int_serial)
                      (pair_serial (list_serial int_serial) (list_serial int_serial))))))))))

abbrev device_parts : Device → Option ConnectionsDevice × Option PresenceDevice
device_parts (Device.connections_device d) = (some d, none)
device_parts (Device.presence_device d) = (none, some d)

abbrev parts_device : Option ConnectionsDevice × Option PresenceDevice → Device
parts_device (some d, _) = Device.connections_device d
parts_device (none, some d) = Device.presence_device d
parts_device (none, none) = Device.connections_device empty_connections_device

parts_device-device_parts : (d : Device) → parts_device (device_parts d) ≡ d
parts_device-device_parts (Device.connections_device d) = refl
parts_device-device_parts (Device.presence_device d) = refl

pub device_serial : Serial Device
device_serial =
    iso_serial device_parts parts_device parts_device-device_parts
      (pair_serial (option_serial connections_device_serial) (option_serial presence_device_serial))

pub connection_request_frame_serial : Serial ConnectionRequestFrame
connection_request_frame_serial =
    iso_serial
      {B = (Option Str)
        × ((Option Str)
            × ((Option Bytes)
                × ((Option ℤ)
                    × ((List ℤ)
                        × ((Option Bytes)
                            × ((Option MediumMetadata)
                                × ((Option ℤ)
                                    × ((Option ℤ)
                                        × ((Option ℤ)
                                            × ((Option Bytes)
                                                × ((Option Device)
                                                    × ((Option ℤ)
                                                        × (Option LocationHint)))))))))))))}
      (λ r. (
        r.endpoint_id,
        (
          r.endpoint_name,
          (
            r.handshake_data,
            (
              r.nonce,
              (
                r.mediums,
                (
                  r.endpoint_info,
                  (
                    r.medium_metadata,
                    (
                      r.keep_alive_interval_millis,
                      (
                        r.keep_alive_timeout_millis,
                        (
                          r.device_type,
                          (r.device_info, (r.device, (r.connection_mode, r.location_hint))),
                        ),
                      ),
                    ),
                  ),
                ),
              ),
            ),
          ),
        ),
      ))
      (λ t. record {
        endpoint_id = t.0;
        endpoint_name = t.1.0;
        handshake_data = t.1.1.0;
        nonce = t.1.1.1.0;
        mediums = t.1.1.1.1.0;
        endpoint_info = t.1.1.1.1.1.0;
        medium_metadata = t.1.1.1.1.1.1.0;
        keep_alive_interval_millis = t.1.1.1.1.1.1.1.0;
        keep_alive_timeout_millis = t.1.1.1.1.1.1.1.1.0;
        device_type = t.1.1.1.1.1.1.1.1.1.0;
        device_info = t.1.1.1.1.1.1.1.1.1.1.0;
        device = t.1.1.1.1.1.1.1.1.1.1.1.0;
        connection_mode = t.1.1.1.1.1.1.1.1.1.1.1.1.0;
        location_hint = t.1.1.1.1.1.1.1.1.1.1.1.1.1;
      })
      (λ _. refl)
      (pair_serial (option_serial bytes_serial) (
        pair_serial (option_serial bytes_serial) (
          pair_serial (option_serial bytes_serial) (
            pair_serial (option_serial int_serial) (
              pair_serial (list_serial int_serial) (
                pair_serial (option_serial bytes_serial) (
                  pair_serial (option_serial medium_metadata_serial) (
                    pair_serial (option_serial int_serial) (
                      pair_serial (option_serial int_serial) (
                        pair_serial (option_serial int_serial) (
                          pair_serial (option_serial bytes_serial) (
                            pair_serial (option_serial device_serial) (
                              pair_serial (option_serial int_serial)
                                (option_serial location_hint_serial))))))))))))))

pub connection_response_frame_serial : Serial ConnectionResponseFrame
connection_response_frame_serial =
    iso_serial
      {B = (Option ℤ)
        × ((Option Bytes)
            × ((Option ℤ)
                × ((Option OsInfo)
                    × ((Option ℤ)
                        × ((Option ℤ) × ((Option ℤ) × ((Option LocationHint) × (Option ℤ))))))))}
      (λ r. (
        r.status,
        (
          r.handshake_data,
          (
            r.response,
            (
              r.os_info,
              (
                r.multiplex_socket_bitmask,
                (
                  r.nearby_connections_version,
                  (r.safe_to_disconnect_version, (r.location_hint, r.keep_alive_timeout_millis)),
                ),
              ),
            ),
          ),
        ),
      ))
      (λ t. record {
        status = t.0;
        handshake_data = t.1.0;
        response = t.1.1.0;
        os_info = t.1.1.1.0;
        multiplex_socket_bitmask = t.1.1.1.1.0;
        nearby_connections_version = t.1.1.1.1.1.0;
        safe_to_disconnect_version = t.1.1.1.1.1.1.0;
        location_hint = t.1.1.1.1.1.1.1.0;
        keep_alive_timeout_millis = t.1.1.1.1.1.1.1.1;
      })
      (λ _. refl)
      (pair_serial (option_serial int_serial) (
        pair_serial (option_serial bytes_serial) (
          pair_serial (option_serial int_serial) (
            pair_serial (option_serial os_info_serial) (
              pair_serial (option_serial int_serial) (
                pair_serial (option_serial int_serial) (
                  pair_serial (option_serial int_serial) (
                    pair_serial (option_serial location_hint_serial)
                      (option_serial int_serial)))))))))
