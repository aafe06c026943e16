-- ===== src/Router.antt =====
-- pkg/router: the connection to a proxy below TLS.
pub mod Pow
