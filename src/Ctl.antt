-- ===== src/Ctl.antt =====
-- dezhanctl, the control CLI: ctl/.
pub mod Http
pub mod Order
pub mod Client
pub mod Metrics
pub mod Dashboard
pub mod Commands
mod Tests
mod MetricTests
mod DashboardTests
mod CommandTests
