-- ===== src/Device/Opcode.antt =====
-- The opcodes of rust_driver/src/device/types.rs, and what the driver reads off them.
mod Tests
use dtld_rdma_driver.Base.{Bool, true, false, ◌≡◌, refl, ◌||◌, not, Option, some, none}
use dtld_rdma_driver.Device.Work.{ToHostWorkRbDescWriteType, first, middle, last, only}

pub data ToHostWorkRbDescOpcode : Type 0 where
  rdma_write_first rdma_write_middle rdma_write_last rdma_write_last_with_immediate rdma_write_only
        rdma_write_only_with_immediate rdma_read_response_first rdma_read_response_middle
        rdma_read_response_last rdma_read_response_only rdma_read_request acknowledge :
      ToHostWorkRbDescOpcode

unfoldable pub is_first : ToHostWorkRbDescOpcode → Bool
is_first rdma_write_first = true
is_first rdma_read_response_first = true
is_first rdma_write_middle = false
is_first rdma_write_last = false
is_first rdma_write_last_with_immediate = false
is_first rdma_write_only = false
is_first rdma_write_only_with_immediate = false
is_first rdma_read_response_middle = false
is_first rdma_read_response_last = false
is_first rdma_read_response_only = false
is_first rdma_read_request = false
is_first acknowledge = false

unfoldable pub is_resp : ToHostWorkRbDescOpcode → Bool
is_resp rdma_read_response_first = true
is_resp rdma_read_response_middle = true
is_resp rdma_read_response_last = true
is_resp rdma_read_response_only = true
is_resp _ = false

unfoldable pub is_read_resp : ToHostWorkRbDescOpcode → Bool
is_read_resp rdma_read_response_first = true
is_read_resp rdma_read_response_middle = true
is_read_resp rdma_read_response_last = true
is_read_resp rdma_read_response_only = true
is_read_resp _ = false

unfoldable pub write_type : ToHostWorkRbDescOpcode → Option ToHostWorkRbDescWriteType
write_type rdma_write_first = some first
write_type rdma_read_response_first = some first
write_type rdma_write_middle = some middle
write_type rdma_read_response_middle = some middle
write_type rdma_write_last = some last
write_type rdma_write_last_with_immediate = some last
write_type rdma_read_response_last = some last
write_type rdma_write_only_with_immediate = some only
write_type rdma_write_only = some only
write_type rdma_read_response_only = some only
write_type rdma_read_request = none
write_type acknowledge = none

abbrev pub begins : Option ToHostWorkRbDescWriteType → Bool
begins (some first) = true
begins (some middle) = false
begins (some last) = false
begins (some only) = false
begins none = false

abbrev pub carries_data : Option ToHostWorkRbDescWriteType → Bool
carries_data none = false
carries_data (some _) = true

-- The four tests on opcodes agree: the first packets are those whose kind is `First`, both tests for
-- a read response are the same, and every read response carries data.
pub write_type-is_first :
    (op : ToHostWorkRbDescOpcode)
    → (begins (write_type op) ≡ is_first op)
      × (is_resp op ≡ is_read_resp op)
      × ((not (is_resp op) || carries_data (write_type op)) ≡ true)
unfolding write_type is_first is_resp is_read_resp
write_type-is_first rdma_write_first = (refl, refl, refl)
write_type-is_first rdma_write_middle = (refl, refl, refl)
write_type-is_first rdma_write_last = (refl, refl, refl)
write_type-is_first rdma_write_last_with_immediate = (refl, refl, refl)
write_type-is_first rdma_write_only = (refl, refl, refl)
write_type-is_first rdma_write_only_with_immediate = (refl, refl, refl)
write_type-is_first rdma_read_response_first = (refl, refl, refl)
write_type-is_first rdma_read_response_middle = (refl, refl, refl)
write_type-is_first rdma_read_response_last = (refl, refl, refl)
write_type-is_first rdma_read_response_only = (refl, refl, refl)
write_type-is_first rdma_read_request = (refl, refl, refl)
write_type-is_first acknowledge = (refl, refl, refl)
