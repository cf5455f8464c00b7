-- ===== src/GroupForm.antt =====
-- The policy editor, ui/src/routes/rules/groupform.svelte: the handlers that edit a draft.
pub mod Rule
pub mod Draft
