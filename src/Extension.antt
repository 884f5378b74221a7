-- ===== src/Extension.antt =====
-- packages/extension: what the background of the extension keeps.
pub mod Permissions
pub mod Auth
pub mod Lock
pub mod Sender
pub mod Contexts
mod Examples
