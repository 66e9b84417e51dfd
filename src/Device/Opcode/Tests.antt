-- ===== src/Device/Opcode/Tests.antt =====
-- An opcode's tests.
use dtld_rdma_driver.Base.{true, ◌≡◌, ◌||◌, not}
use dtld_rdma_driver.Device.Opcode.{
  rdma_read_response_first, begins, carries_data, write_type, is_first, is_resp, is_read_resp,
  write_type-is_first,
}

write_type-is_first_example :
    (begins (write_type rdma_read_response_first) ≡ is_first rdma_read_response_first)
    × (is_resp rdma_read_response_first ≡ is_read_resp rdma_read_response_first)
    × ((not (is_resp rdma_read_response_first)
          || carries_data (write_type rdma_read_response_first))
        ≡ true)
write_type-is_first_example = write_type-is_first rdma_read_response_first
