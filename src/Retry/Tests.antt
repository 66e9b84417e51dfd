-- ===== src/Retry/Tests.antt =====
-- Retries at concrete requests.
use dtld_rdma_driver.Base.{ℕ, ◌+◌, ◌-◌, ◌*◌, ◌/◌, ◌≡◌, refl, true, none, max, map, [], ◌∷◌, arith}
use dtld_rdma_driver.Types.{mtu256}
use dtld_rdma_driver.Utils.{calculate_packet_cnt}
use dtld_rdma_driver.Device.Work.{ToCardWorkRbDescWrite, write, common_default}
use dtld_rdma_driver.Retry.{RetryMap, psn_addr_offset, cut_to_range, check_timeout}
use dtld_rdma_driver.Retry.Offset.{psn_addr_offset_lem, cut_to_range-packets}
use dtld_rdma_driver.Retry.Timeout.{
  told, resent, exceeded, due_again, remaining, check_timeout-remaining,
}

abbrev request : ToCardWorkRbDescWrite
request = record {
  common = record common_default { total_len = 1200; raddr = 300 };
  is_last = true;
  is_first = true;
  sge0 = record { addr = 4140; len = 1200; key = 7 };
  sge1 = none;
  sge2 = none;
  sge3 = none;
}

psn_addr_offset_lem_example :
    4140 + psn_addr_offset 4140 mtu256 3 ≡ max 4140 ((4140 / 256 + 3) * 256)
psn_addr_offset_lem_example = psn_addr_offset_lem 4140 3 mtu256 (omega arith)

cut_to_range-packets_example :
    let e = cut_to_range 1 4 5 request in
    calculate_packet_cnt e.common.pmtu e.common.raddr e.common.total_len ≡ 4 - 1
cut_to_range-packets_example =
    cut_to_range-packets 1 4 5 request (omega arith) (omega arith) (omega arith) (omega arith) refl

-- An entry without a retry left, one with its last retry and one with three, which are due, and one
-- that is not due.
abbrev kept : RetryMap
kept = record {
  max_retry = 3;
  retry_timeout = 100;
  entries =
      (
        (1, 1),
        record {
          descriptor = write request;
          retry_counter = 0;
          next_timeout = 500;
          is_initiative = true;
        },
      )
      ∷ (
        (1, 2),
        record {
          descriptor = write request;
          retry_counter = 1;
          next_timeout = 500;
          is_initiative = true;
        },
      )
      ∷ (
        (1, 3),
        record {
          descriptor = write request;
          retry_counter = 3;
          next_timeout = 500;
          is_initiative = true;
        },
      )
      ∷ (
        (1, 4),
        record {
          descriptor = write request;
          retry_counter = 2;
          next_timeout = 900;
          is_initiative = true;
        },
      )
      ∷ [];
}

check_timeout-remaining_example :
    let (m', es) = check_timeout 600 100 kept in
    (told es ≡ exceeded 600 kept.entries)
    × (resent es ≡ due_again 600 kept.entries)
    × (m' ≡ record kept { entries = remaining (exceeded 600 kept.entries) 600 100 kept.entries })
check_timeout-remaining_example = check_timeout-remaining 600 100 kept

-- The first is told, the first and the second are gone.
kept_told : exceeded 600 kept.entries ≡ (1, 1) ∷ []
kept_told = refl

kept_left :
    map {B = (ℕ × ℕ) × ℕ}
      (λ (k, ctx). (k, ctx.retry_counter))
      (remaining ((1, 1) ∷ []) 600 100 kept.entries)
    ≡ ((1, 3), 2) ∷ ((1, 4), 2) ∷ []
kept_left = refl
