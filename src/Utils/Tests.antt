-- ===== src/Utils/Tests.antt =====
-- The tests of rust_driver/src/utils.rs, and the theorems at concrete numbers.
use dtld_rdma_driver.Base.{◌+◌, ◌*◌, ◌/◌, ◌%◌, ◌-◌, ◌≤◌, ◌<◌, ◌≡◌, refl, arith}
use dtld_rdma_driver.Types.{mtu1024}
use dtld_rdma_driver.Utils.{calculate_packet_cnt, align_up}
use dtld_rdma_driver.Utils.Packets.{calculate_packet_cnt-blocks, calculate_packet_cnt-cut}
use dtld_rdma_driver.Utils.Align.{align_up-least}

aligned_cnt : calculate_packet_cnt mtu1024 0 4096 ≡ 4
unfolding calculate_packet_cnt
aligned_cnt = refl

unaligned_cnt : calculate_packet_cnt mtu1024 1023 4096 ≡ 5
unfolding calculate_packet_cnt
unaligned_cnt = refl

align_up_run : align_up (1024 * 1024 * 2) (1024 * 1024 * 2 + 1) ≡ 1024 * 1024 * 4
unfolding align_up
align_up_run = refl

calculate_packet_cnt-blocks_example :
    calculate_packet_cnt mtu1024 1000 5000 + 1000 / 1024 ≡ (1000 + 5000 - 1) / 1024 + 1
calculate_packet_cnt-blocks_example = calculate_packet_cnt-blocks mtu1024 1000 5000 (omega arith)

calculate_packet_cnt-cut_example :
    calculate_packet_cnt mtu1024 1000 (24 + 5000)
    ≡ calculate_packet_cnt mtu1024 1000 24 + calculate_packet_cnt mtu1024 (1000 + 24) 5000
calculate_packet_cnt-cut_example =
    calculate_packet_cnt-cut mtu1024 1000 24 5000 (omega arith) (omega arith) refl

align_up-least_example :
    (align_up 4096 5000 % 4096 ≡ 0)
    × (5000 ≤ align_up 4096 5000)
    × (align_up 4096 5000 < 5000 + 4096)
align_up-least_example = align_up-least 4096 5000 (omega arith) (omega arith)
