-- ===== src/Login.antt =====
-- internal/login: how a login code becomes a player with a session.
pub mod Exchange
pub mod Wechat
pub mod Service
pub mod Handler
