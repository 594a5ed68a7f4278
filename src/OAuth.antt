-- ===== src/OAuth.antt =====
-- src-tauri/src/auth: the OAuth authorization-code flow with PKCE.
pub mod Compare
pub mod Bearer
pub mod Flow
pub mod Token
pub mod Codes
pub mod Grant
pub mod Password
pub mod Encode
mod Tests
