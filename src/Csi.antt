-- ===== src/Csi.antt =====
-- The CSI driver, csi/internal/driver.
pub mod Names
pub mod Conn
pub mod Service
pub mod S3
pub mod Status
pub mod Controller
pub mod CopySource
pub mod Node
pub mod Driver
mod Tests
mod NameTests
mod DriverTests
