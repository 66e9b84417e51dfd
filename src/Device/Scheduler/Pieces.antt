-- ===== src/Device/Scheduler/Pieces.antt =====
-- The specification of the segments of a request.
use dtld_rdma_driver.Base.{
  ℕ, ◌+◌, ◌-◌, ◌%◌, ◌<◌, ◌≤◌, ◌≡◌, refl, ◌⊎◌, Bool, true, false, List, [], ◌∷◌,
}
use dtld_rdma_driver.Types.{Pmtu}
use dtld_rdma_driver.Types.Psn.{wrapping_add}
use dtld_rdma_driver.Utils.{calculate_packet_cnt}
use dtld_rdma_driver.Device.Work.{
  sge_default, ToCardWorkRbDescCommon, ToCardWorkRbDesc, read, write, write_with_imm, read_resp,
}
use dtld_rdma_driver.Device.Scheduler.{get_to_card_desc_common, get_total_len, is_read, sge0_of}

abbrev pub is_first_of : ToCardWorkRbDesc → Bool
is_first_of (read _) = false
is_first_of (write req) = req.is_first
is_first_of (read_resp req) = req.is_first
is_first_of (write_with_imm req) = req.is_first

abbrev pub is_last_of : ToCardWorkRbDesc → Bool
is_last_of (read _) = false
is_last_of (write req) = req.is_last
is_last_of (read_resp req) = req.is_last
is_last_of (write_with_imm req) = req.is_last

abbrev common_of_request : ToCardWorkRbDescCommon → ToCardWorkRbDescCommon
common_of_request c = record c { total_len = 0; raddr = 0; psn = 0 }

-- A request without what differs between its segments: the addresses and the length of the data,
-- the first PSN and the marks. What stays is the kind of request, the key, the queue pair and the
-- addresses of the peer, the flags, the immediate value and the other elements.
abbrev pub request_of : ToCardWorkRbDesc → ToCardWorkRbDesc
request_of (read req) = read req
request_of (write req) = write (record req {
  sge0 = sge_default;
  common = common_of_request req.common;
  is_first = false;
  is_last = false;
})
request_of (read_resp req) = read_resp (record req {
  sge0 = sge_default;
  common = common_of_request req.common;
  is_first = false;
  is_last = false;
})
request_of (write_with_imm req) = write_with_imm (record req {
  sge0 = sge_default;
  common = common_of_request req.common;
  is_first = false;
  is_last = false;
})

abbrev pub is_nil : List ToCardWorkRbDesc → Bool
is_nil [] = true
is_nil (_ ∷ _) = false

module _ (size : ℕ) (pmtu : Pmtu) (key : ℕ) (desc : ToCardWorkRbDesc) where
  -- The segments cover `n` bytes without a gap, from `va` at the peer and from `la` here. Each is a
  -- part of the same request, not empty and at most `size` bytes long, ends at a multiple of
  -- `size` or where the data ends, and has the PSN that follows from the packets before it.
  abbrev pub Pieces : ℕ → ℕ → ℕ → ℕ → List ToCardWorkRbDesc → Type 0
  Pieces va la psn n [] = n ≡ 0
  Pieces va la psn n (d ∷ ds) =
      let l = (sge0_of d).len in
      (0 < l)
      × (l ≤ n)
      × (l ≤ size)
      × (((va + l) % size ≡ 0) ⊎ (l ≡ n))
      × (sge0_of d ≡ record { addr = la; len = l; key = key })
      × ((get_to_card_desc_common d).raddr ≡ va)
      × ((get_to_card_desc_common d).psn ≡ psn)
      × (request_of d ≡ request_of desc)
      × Pieces (va + l) (la + l) (wrapping_add psn (calculate_packet_cnt pmtu va l)) (n - l) ds

  pub Pieces-cons :
      (va la psn n l : ℕ) (d : ToCardWorkRbDesc) (ds : List ToCardWorkRbDesc)
      → 0 < l
      → l ≤ n
      → l ≤ size
      → ((va + l) % size ≡ 0) ⊎ (l ≡ n)
      → sge0_of d ≡ record { addr = la; len = l; key = key }
      → (get_to_card_desc_common d).raddr ≡ va
      → (get_to_card_desc_common d).psn ≡ psn
      → request_of d ≡ request_of desc
      → Pieces (va + l) (la + l) (wrapping_add psn (calculate_packet_cnt pmtu va l)) (n - l) ds
      → Pieces va la psn n (d ∷ ds)
  Pieces-cons va la psn n l d ds h0 h1 h2 h3 e a b q rest =
      rw e (h0, h1, h2, h3, refl, a, b, q, rest)

-- The segments after the first.
abbrev pub Rest : List ToCardWorkRbDesc → Type 0
Rest [] = Unit
Rest (d ∷ ds) =
    (is_first_of d ≡ false)
    × (is_last_of d ≡ is_nil ds)
    × (get_total_len d ≡ (sge0_of d).len)
    × Rest ds

-- The first segment alone is marked as the first and has the length of the whole message, the last
-- alone is marked as the last, and the others have their own length.
abbrev pub Marked : ℕ → List ToCardWorkRbDesc → Type 0
Marked total [] = false ≡ true
Marked total (d ∷ ds) =
    (is_first_of d ≡ true) × (is_last_of d ≡ is_nil ds) × (get_total_len d ≡ total) × Rest ds

-- A segment before the marks.
abbrev pub Plain : ToCardWorkRbDesc → Type 0
Plain d =
    (is_read d ≡ false)
    × (is_first_of d ≡ false)
    × (is_last_of d ≡ false)
    × (get_total_len d ≡ (sge0_of d).len)
