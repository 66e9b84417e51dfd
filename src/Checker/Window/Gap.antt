-- ===== src/Checker/Window/Gap.antt =====
-- The gaps that the driver reports.
use dtld_rdma_driver.Base.{ℕ, Option, some, none}
use dtld_rdma_driver.Types.Psn
use dtld_rdma_driver.Types.Psn.{max_window_size}

abbrev pair : Option (ℕ × ℕ) → ℕ × ℕ
pair none = (0, 0)
pair (some p) = p
