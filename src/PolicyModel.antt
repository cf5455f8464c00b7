-- ===== src/PolicyModel.antt =====
-- The policy model that the policies page and its forms share: ui/src/routes/rules/policymodel.ts.
pub mod Types
pub mod Copy
pub mod Labels
pub mod Summary
