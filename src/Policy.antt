-- ===== src/Policy.antt =====
-- Authorization: app/services/policy_engine.py, condition_engine.py and policy_scope.py.
pub mod Model
pub mod Conditions
pub mod Engine
pub mod Binding
pub mod Scope
pub mod Migration
pub mod Versions
mod Examples
mod ScopeExamples
mod VersionExamples
