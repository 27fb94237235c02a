-- ===== src/Licensing.antt =====
-- Licences and what they allow: app/services/editions.py, license_verify.py,
-- machine_fingerprint.py and entitlements.py.
pub mod Editions
pub mod Verify
pub mod Binding
pub mod Entitlements
mod Examples
