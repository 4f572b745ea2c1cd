-- ===== src/Web.antt =====
-- services/web: the server of the web front end.
pub mod Proxy
