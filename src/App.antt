-- ===== src/App.antt =====
-- App/Bootstrap/AppContext.cpp: the configuration from the environment, and what starts and stops in
-- which order.
pub mod Env
pub mod Context
pub mod Lifetime
pub mod Construction
pub mod Main
pub mod Service
mod Runs
mod ServiceRuns
