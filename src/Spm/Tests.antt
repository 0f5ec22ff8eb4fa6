-- ===== src/Spm/Tests.antt =====
-- Concrete runs of the models of src/spm, with a SKU on the software token of Pk11/SoftToken.antt.
pub mod World
mod Hsm
mod Sessions
mod Handlers
