-- ===== src/Authentication.antt =====
-- src/authentication: the administrator's credentials, and the guard of the pages behind them.
pub mod Password
pub mod Middleware
