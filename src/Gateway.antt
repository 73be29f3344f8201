-- ===== src/Gateway.antt =====
-- src/gateway and container/src: the wire contracts, the registry of containers, redaction, the
-- concierge, certificates, the transport and the server of a container.
pub mod Wire
pub mod Registry
pub mod Redaction
pub mod Logging
pub mod Concierge
pub mod Certificates
pub mod Container
pub mod Transport
