-- ===== src/Requests/Tests.antt =====
-- Requests to a queue pair.
use dtld_rdma_driver.Base.{
  ℕ, zero, suc, ◌≡◌, refl, sym, ap, ◌∙◌, Bool, true, false, some, none, List, [], ◌∷◌, ◌++◌, map,
  ◌==◌, ==_iff, if◌then◌else◌,
}
use dtld_rdma_driver.Types.{mtu256, rc}
use dtld_rdma_driver.Types.Psn.{wrapping_add}
use dtld_rdma_driver.Utils.{calculate_packet_cnt, get_first_packet_max_length}
use dtld_rdma_driver.Device.Work.{ToCardWorkRbDesc}
use dtld_rdma_driver.Device.Scheduler.{get_to_card_desc_common}
use dtld_rdma_driver.Checker.Contexts.{lookup, put}
use dtld_rdma_driver.Retry.{find, add}
use dtld_rdma_driver.Requests.{
  QpContext, WorkRequest, DeviceInner, write_or_read, make_all, build, put_key,
}
use dtld_rdma_driver.Requests.Numbers.{sent_on, Consecutive, IsNamed, make_all-Consecutive}

abbrev takes : List ToCardWorkRbDesc → ToCardWorkRbDesc → Bool
takes sent d = true

abbrev qp : QpContext
qp = record {
  qpn = 9;
  qp_type = rc;
  pmtu = mtu256;
  dqp_ip = 1;
  dqp_mac_addr = 2;
  sending_psn = 16777215;
  next_msn = 65535;
}

abbrev device : DeviceInner
device = record {
  qp_table = (9, qp) ∷ [];
  user_op_ctx_map = [];
  retry_map = record { max_retry = 3; retry_timeout = 100; entries = [] };
  sent = [];
}

abbrev big_write : WorkRequest
big_write = record {
  dqpn = 9;
  raddr = 300;
  rkey = 7;
  flags = 0;
  sge0 = record { addr = 4096; len = 1200; key = 7 };
  is_read = false;
}

abbrev some_read : WorkRequest
some_read = record big_write { is_read = true }

abbrev requests : List (ℕ × WorkRequest)
requests = (10, big_write) ∷ (20, some_read) ∷ (30, big_write) ∷ []

-- Five packets, one, and five.
numbers :
    map {B = ℕ × ℕ}
      (λ d. ((get_to_card_desc_common d).psn, (get_to_card_desc_common d).msn))
      (make_all takes requests device).sent
    ≡ (16777215, 65535) ∷ (4, 0) ∷ (5, 1) ∷ []
unfolding get_to_card_desc_common write_or_read build lookup put find put_key wrapping_add
    calculate_packet_cnt get_first_packet_max_length add
numbers = refl

found : lookup 9 device.qp_table ≡ some qp
unfolding lookup
found = refl

number_of_found :
    (b : Bool) (k : ℕ) (other : QpContext)
    → (9 == k) ≡ b
    → (if b then some qp else none) ≡ some other
    → other.qpn ≡ k
number_of_found true k other e f =
    sym (ap (λ o. elim o [ none ↦ 0 | some c ↦ c.qpn ]) f) ∙ (==_iff 9 k).0 e
number_of_found false k other e f = absurd (cc)

device-IsNamed : IsNamed device.qp_table
unfolding lookup
device-IsNamed k other e = number_of_found (9 == k) k other refl e

make_all-Consecutive_example :
    (ds : List ToCardWorkRbDesc) × (sent_on 9 (make_all takes requests device).sent ≡ [] ++ ds)
    × Consecutive 16777215 65535 ds
make_all-Consecutive_example =
    make_all-Consecutive takes (λ sent d. refl) requests device 9 qp found device-IsNamed

repeat : ℕ → ℕ × WorkRequest → List (ℕ × WorkRequest)
repeat zero x = []
repeat (suc n) x = x ∷ repeat n x
