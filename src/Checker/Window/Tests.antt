-- ===== src/Checker/Window/Tests.antt =====
-- Windows at concrete packets.
use dtld_rdma_driver.Base.{ℕ, ◌≡◌, ◌&&◌, ◌||◌, inl, inr, List, [], ◌∷◌, leb, arith}
use dtld_rdma_driver.Types.Psn.{wrapping_sub}
use dtld_rdma_driver.Checker.Window.{Interval, SlidingWindow, new, insert_range, is_complete}
use dtld_rdma_driver.Checker.Window.Order.{IsSorted}
use dtld_rdma_driver.Checker.Window.Cover.{covers, insert_range-IsSorted, insert_range-covers}
use dtld_rdma_driver.Checker.Window.Complete.{all_below}
use dtld_rdma_driver.Checker.Window.Record.{arrived, record_all, Within, record_all-is_complete}

abbrev two : List Interval
two = (0, 3) ∷ (7, 9) ∷ []

two-IsSorted : IsSorted two
two-IsSorted = (omega arith, omega arith, omega arith)

insert_range-IsSorted_example : IsSorted (insert_range 3 12 two)
insert_range-IsSorted_example = insert_range-IsSorted 3 12 two (omega arith) two-IsSorted

insert_range-covers_example :
    covers 6 (insert_range 4 6 two) ≡ (covers 6 two || (leb 4 6 && leb 6 6))
insert_range-covers_example =
    insert_range-covers 4 6 6 two (omega arith) two-IsSorted
      (inl (omega arith), (inr (inr (omega arith)), tt))

-- Four packets from the last but one sequence number on, the third of them twice, in disorder.
abbrev packets : List ℕ
packets = 0 ∷ 16777215 ∷ 1 ∷ 0 ∷ 16777214 ∷ []

packets-Within : Within 16777214 4 packets
unfolding wrapping_sub
packets-Within = (omega arith, (omega arith, (omega arith, (omega arith, (omega arith, tt)))))

record_all-is_complete_example :
    is_complete (record_all (new 16777214 4) packets)
    ≡ all_below 4 (λ x. arrived 16777214 x packets)
record_all-is_complete_example =
    record_all-is_complete 16777214 4 packets (omega arith) (omega arith) packets-Within

abbrev gapped : SlidingWindow
gapped = record { intervals = two; start_psn = 50; num_of_packets = 10 }
