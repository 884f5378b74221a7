-- ===== src/Client.antt =====
-- packages/client: the client of web pages.
pub mod Connection
mod Examples
