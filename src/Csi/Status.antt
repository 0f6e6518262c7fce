-- ===== src/Csi/Status.antt =====
-- gRPC status errors of the driver, `errf` of csi/internal/driver/driver.go.
use dezhan.Text.{Text}

pub data Code : Type 0 where
  invalid_argument internal : Code

pub record Status : Type 0 where
  pub code : Code
  pub message : Text

abbrev pub errf : Code → Text → Status
errf c m = record { code = c; message = m }
