-- ===== src/Types/Psn/Bytes.antt =====
-- The byte order of 24-bit numbers on the wire.
use dtld_rdma_driver.Base.{ℕ, ◌+◌, ◌*◌, ◌^◌, ◌≡◌, arith}
use dtld_rdma_driver.Types.Psn.{IsPsn, new_lem, into_be, from_be}

-- Reading the big-endian form of a 24-bit number gives the number back, whatever stands in the
-- unused fourth byte of the 32-bit word.
pub from_be-into_be : (a top : ℕ) → IsPsn a → from_be (into_be a + 2 ^ 24 * top) ≡ a
unfolding into_be from_be
from_be-into_be a top h = rw new_lem (omega arith)
