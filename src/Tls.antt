-- ===== src/Tls.antt =====
-- TLS on a connection: the handshake of src/utils/ssl_helper.cpp, and the answers that
-- src/server/client_session.cpp sends. OpenSSL, the clock and `poll` are parameters.
pub mod Accept
pub mod Context
pub mod Send
mod Tests
