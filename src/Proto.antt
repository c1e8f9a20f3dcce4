-- ===== src/Proto.antt =====
-- proto/offline_wire_formats.proto: the wire messages, with the fields that the schema gives.
pub mod FrameEnums
pub mod MediumEnums
pub mod Metadata
pub mod Connection
pub mod Payload
pub mod Upgrade
pub mod Frame
pub mod Codec
pub mod Sample
