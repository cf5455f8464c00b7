-- ===== src/Examples.antt =====
-- Concrete inputs on which the theorems apply, and runs of the definitions on them.
mod Drafts
mod Editing
mod Dialog
mod Inputs
mod Assignments
mod Editors
mod Shell
mod Setup
mod Pages
mod Devices
mod Accounts
mod Peers
mod Tester
mod Overview
mod Fields
mod Assistant
mod Dns
