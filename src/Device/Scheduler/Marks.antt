-- ===== src/Device/Scheduler/Marks.antt =====
-- The marks on the first and the last segment.
use dtld_rdma_driver.Base.{ℕ, ◌≡◌, ◌∙◌, refl, sym, true, false, List, [], ◌∷◌, All}
use dtld_rdma_driver.Types.{Pmtu}
use dtld_rdma_driver.Device.Work.{ToCardWorkRbDesc, read, write, write_with_imm, read_resp}
use dtld_rdma_driver.Device.Scheduler.{
  get_to_card_desc_common, get_total_len, is_read, sge0_of, mark_first, mark_last, mark_front,
  mark_back, segment,
}
use dtld_rdma_driver.Device.Scheduler.Pieces.{
  Pieces, Plain, Rest, Marked, request_of, is_first_of, is_last_of, is_nil,
}

-- Two requests that are cut from the same place with the same PSN.
abbrev SameCut : ToCardWorkRbDesc → ToCardWorkRbDesc → Type 0
SameCut d e =
    (sge0_of d ≡ sge0_of e)
    × ((get_to_card_desc_common d).raddr ≡ (get_to_card_desc_common e).raddr)
    × ((get_to_card_desc_common d).psn ≡ (get_to_card_desc_common e).psn)
    × (request_of d ≡ request_of e)

mark_first-SameCut : (total : ℕ) (d : ToCardWorkRbDesc) → SameCut (mark_first total d) d
unfolding mark_first get_to_card_desc_common segment
mark_first-SameCut total (read _) = (refl, refl, refl, refl)
mark_first-SameCut total (write _) = (refl, refl, refl, refl)
mark_first-SameCut total (read_resp _) = (refl, refl, refl, refl)
mark_first-SameCut total (write_with_imm _) = (refl, refl, refl, refl)

mark_last-SameCut : (d : ToCardWorkRbDesc) → SameCut (mark_last d) d
unfolding mark_last get_to_card_desc_common segment
mark_last-SameCut (read _) = (refl, refl, refl, refl)
mark_last-SameCut (write _) = (refl, refl, refl, refl)
mark_last-SameCut (read_resp _) = (refl, refl, refl, refl)
mark_last-SameCut (write_with_imm _) = (refl, refl, refl, refl)

mark_first-flags :
    (total : ℕ) (d : ToCardWorkRbDesc)
    → is_read d ≡ false
    → (is_first_of (mark_first total d) ≡ true)
      × (is_last_of (mark_first total d) ≡ is_last_of d)
      × (get_total_len (mark_first total d) ≡ total)
      × (is_read (mark_first total d) ≡ false)
unfolding mark_first get_total_len
mark_first-flags total (read _) h = absurd (cc)
mark_first-flags total (write _) h = (refl, refl, refl, refl)
mark_first-flags total (read_resp _) h = (refl, refl, refl, refl)
mark_first-flags total (write_with_imm _) h = (refl, refl, refl, refl)

mark_last-flags :
    (d : ToCardWorkRbDesc)
    → is_read d ≡ false
    → (is_last_of (mark_last d) ≡ true)
      × (is_first_of (mark_last d) ≡ is_first_of d)
      × (get_total_len (mark_last d) ≡ get_total_len d)
unfolding mark_last get_total_len
mark_last-flags (read _) h = absurd (cc)
mark_last-flags (write _) h = (refl, refl, refl)
mark_last-flags (read_resp _) h = (refl, refl, refl)
mark_last-flags (write_with_imm _) h = (refl, refl, refl)

module _ (size : ℕ) (pmtu : Pmtu) (key : ℕ) (desc : ToCardWorkRbDesc) where
  Pieces-SameCut :
      (va la psn n : ℕ) (d e : ToCardWorkRbDesc) (ds : List ToCardWorkRbDesc)
      → SameCut e d
      → Pieces size pmtu key desc va la psn n (d ∷ ds)
      → Pieces size pmtu key desc va la psn n (e ∷ ds)
  Pieces-SameCut va la psn n d e ds (a, b, c, f) ps = rw (a, b, c, f) ps

  mark_front-Pieces :
      (total va la psn n : ℕ) (ds : List ToCardWorkRbDesc)
      → Pieces size pmtu key desc va la psn n ds
      → Pieces size pmtu key desc va la psn n (mark_front total ds)
  unfolding mark_front
  mark_front-Pieces total va la psn n [] ps = ps
  mark_front-Pieces total va la psn n (d ∷ ds) ps =
      Pieces-SameCut va la psn n _ _ ds (mark_first-SameCut total d) ps

  mark_back-Pieces :
      (ds : List ToCardWorkRbDesc) (va la psn n : ℕ)
      → Pieces size pmtu key desc va la psn n ds
      → Pieces size pmtu key desc va la psn n (mark_back ds)
  unfolding mark_back
  mark_back-Pieces [] va la psn n ps = ps
  mark_back-Pieces (d ∷ []) va la psn n ps =
      Pieces-SameCut va la psn n _ _ [] (mark_last-SameCut d) ps
  mark_back-Pieces (d ∷ e ∷ ds) va la psn n (h0, h1, h2, h3, h4, h5, h6, h7, ps) =
      (h0, h1, h2, h3, h4, h5, h6, h7, mark_back-Pieces (e ∷ ds) _ _ _ _ ps)

  pub marks-Pieces :
      (total va la psn n : ℕ) (ds : List ToCardWorkRbDesc)
      → Pieces size pmtu key desc va la psn n ds
      → Pieces size pmtu key desc va la psn n (mark_back (mark_front total ds))
  marks-Pieces total va la psn n ds ps =
      mark_back-Pieces (mark_front total ds) va la psn n (mark_front-Pieces total va la psn n ds ps)

is_nil-mark_back :
    (e : ToCardWorkRbDesc) (ds : List ToCardWorkRbDesc) → is_nil (mark_back (e ∷ ds)) ≡ false
unfolding mark_back
is_nil-mark_back e [] = refl
is_nil-mark_back e (_ ∷ _) = refl

-- The marks of the back on segments after the first.
mark_back-Rest : (ds : List ToCardWorkRbDesc) → All Plain ds → Rest (mark_back ds)
unfolding mark_back
mark_back-Rest [] ps = tt
mark_back-Rest (d ∷ []) ((r, f, l, t), ps) =
    let (a, b, c) = mark_last-flags d r in
    let (s, _, _, _) = mark_last-SameCut d in (rw b f, a, rw (c, s) t, tt)
mark_back-Rest (d ∷ e ∷ ds) ((r, f, l, t), ps) =
    (f, l ∙ sym (is_nil-mark_back e ds), t, mark_back-Rest (e ∷ ds) ps)

pub mark_back-Marked :
    (total : ℕ) (d : ToCardWorkRbDesc) (ds : List ToCardWorkRbDesc)
    → All Plain (d ∷ ds)
    → Marked total (mark_back (mark_front total (d ∷ ds)))
unfolding mark_back mark_front
mark_back-Marked total d [] ((r, f, l, t), ps) =
    let (a, b, c, r') = mark_first-flags total d r in
    let (a', b', c') = mark_last-flags (mark_first total d) r' in (b' ∙ a, a', c' ∙ c, tt)
mark_back-Marked total d (e ∷ ds) ((r, f, l, t), ps) =
    let (a, b, c, r') = mark_first-flags total d r in
    (a, b ∙ l ∙ sym (is_nil-mark_back e ds), c, mark_back-Rest (e ∷ ds) ps)
