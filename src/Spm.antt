-- ===== src/Spm.antt =====
-- src/spm/services: the secure provisioning module. Its parts are the SKU configuration
-- (skucfg.go), the interface of a secure element (se.go), the HSM behind that interface (se_pk11.go),
-- with the queue of sessions that its callers share, and the gRPC server (spm.go).
pub mod SkuConfig
pub mod SecureElement
pub mod SessionQueue
pub mod Hsm
pub mod Messages
pub mod Server
pub mod Program
pub mod Tests
