-- ===== src/Device/Scheduler/Turn.antt =====
-- A turn of the loop of `split_descriptor`: what it cuts, and the variables after it.
use dtld_rdma_driver.Base.{
  ℕ, zero, suc, ◌+◌, ◌-◌, ◌%◌, ◌^◌, ◌<◌, ◌≤◌, ◌≡◌, refl, ◌∙◌, ◌⊎◌, inl, inr, false, some, [], ◌∷◌,
  add64, sub32, arith, ltb_iff, leb_iff, Bool-cases, ltb, ◌==◌, if◌then◌else◌,
}
use native.Mathlib.Nat.{mod-eq_of_lt, add-mod_right}
use dtld_rdma_driver.Types.{Pmtu}
use dtld_rdma_driver.Types.Psn.{wrapping_add}
use dtld_rdma_driver.Utils.{calculate_packet_cnt}
use dtld_rdma_driver.Device.Scheduler.{
  SgList, new_from_sge, Cursor, cut_levels, cut_from_sgl, advance,
}
use dtld_rdma_driver.Device.Scheduler.Psn.{recalculate_psn_lem}

pub cut_from_sgl_lem :
    (addr len key length : ℕ)
    → length ≤ len
    → len < 2 ^ 32
    → cut_from_sgl length (new_from_sge (record { addr = addr; len = len; key = key }))
      ≡ some (
        new_from_sge (record { addr = addr; len = length; key = key }),
        record {
          sges = record { addr = add64 addr length; len = sub32 len length; key = key } ∷ [];
          cur_level = if sub32 len length == 0 then 1 else 0;
          len = 1;
        },
      )
unfolding cut_from_sgl cut_levels
cut_from_sgl_lem addr len key length h small = rw ((leb_iff length len).1 h) refl

nonzero : (n : ℕ) → 0 < n → (n == 0) ≡ false
nonzero zero h = absurd (omega arith)
nonzero (suc n) h = ground arith

-- The cursor before a turn.
pub record Ready (size key la : ℕ) (c : Cursor) : Type 0 where
  pub sgl :
      0 < c.remain_data_length
      → c.sg_list ≡ new_from_sge (record { addr = la; len = c.remain_data_length; key = key })
  pub small : c.remain_data_length < 2 ^ 32
  pub nonempty : 0 < c.remain_data_length → 0 < c.this_length
  pub fits : c.this_length ≤ c.remain_data_length
  pub bounded : c.this_length ≤ size
  pub ends : ((c.current_va + c.this_length) % size ≡ 0) ⊎ (c.this_length ≡ c.remain_data_length)
  pub room : c.current_va + c.remain_data_length < 2 ^ 64
  pub room_here : la + c.remain_data_length < 2 ^ 64

module _ (size : ℕ) (pmtu : Pmtu) (key : ℕ) where
  abbrev pub left_of : ℕ → Cursor → SgList
  left_of la c = record {
    sges =
        record {
          addr = add64 la c.this_length;
          len = sub32 c.remain_data_length c.this_length;
          key = key;
        }
        ∷ [];
    cur_level = if sub32 c.remain_data_length c.this_length == 0 then 1 else 0;
    len = 1;
  }

  pub advance-remain :
      (la : ℕ) (c : Cursor)
      → Ready size key la c
      → sub32 c.remain_data_length c.this_length ≡ c.remain_data_length - c.this_length
  advance-remain la c r = omega (arith, r.small, r.fits)

  more_sgl :
      (la : ℕ) (c : Cursor)
      → 0 < c.remain_data_length - c.this_length
      → Ready size key la c
      → record (left_of la c) {
        sges =
            record {
              addr = add64 la c.this_length;
              len = c.remain_data_length - c.this_length;
              key = key;
            }
            ∷ [];
        cur_level = if c.remain_data_length - c.this_length == 0 then 1 else 0;
      }
        ≡ new_from_sge (record {
          addr = la + c.this_length;
          len = c.remain_data_length - c.this_length;
          key = key;
        })
  more_sgl la c h r =
      rw
        (
          mod-eq_of_lt {n = la + c.this_length} {m = 2 ^ 64} (omega (arith, r.room_here, r.fits)),
          nonzero (c.remain_data_length - c.this_length) h,
        )
        refl

  next_ends :
      (la : ℕ) (c : Cursor)
      → Ready size key la c
      → let rest = c.remain_data_length - c.this_length in
        let next = if ltb size rest then size else rest in
        ((add64 c.current_va c.this_length + next) % size ≡ 0) ⊎ (next ≡ rest)
  next_ends la c r = elim (Bool-cases (ltb size (c.remain_data_length - c.this_length))) [
    | inl more ↦ rw more (elim r.ends [
      | inl e ↦ inl (
          rw
            (mod-eq_of_lt {n = c.current_va + c.this_length} {m = 2 ^ 64}
              (omega (arith, r.room, r.fits, (ltb_iff size _).0 more)))
            (add-mod_right (c.current_va + c.this_length) size ∙ e))
      | inr e ↦ absurd (omega (arith, (ltb_iff size _).0 more))
    ])
    | inr last ↦ rw last (inr refl)
  ]

  pub advance-Ready :
      (la : ℕ) (c : Cursor)
      → 0 < size
      → 0 < c.remain_data_length
      → Ready size key la c
      → Ready size key (la + c.this_length) (advance size pmtu (left_of la c) c)
  unfolding advance
  advance-Ready la c hs hr r = rw (advance-remain la c r) (record {
    sgl = λ h. more_sgl la c h r;
    small = omega (arith, r.small);
    nonempty = λ h. ground arith;
    fits = ground arith;
    bounded = ground arith;
    ends = next_ends la c r;
    room = omega (arith, r.room, r.fits);
    room_here = omega (arith, r.room_here, r.fits);
  })

  pub advance-va :
      (la : ℕ) (c : Cursor)
      → Ready size key la c
      → (advance size pmtu (left_of la c) c).current_va ≡ c.current_va + c.this_length
  unfolding advance
  advance-va la c r = mod-eq_of_lt (omega (arith, r.room, r.fits))

  pub advance-remain_data_length :
      (la : ℕ) (c : Cursor)
      → Ready size key la c
      → (advance size pmtu (left_of la c) c).remain_data_length
        ≡ c.remain_data_length - c.this_length
  unfolding advance
  advance-remain_data_length la c r = advance-remain la c r

  pub advance-base_psn :
      (la : ℕ) (c : Cursor)
      → (advance size pmtu (left_of la c) c).base_psn
        ≡ wrapping_add c.base_psn (calculate_packet_cnt pmtu c.current_va c.this_length)
  unfolding advance
  advance-base_psn la c = recalculate_psn_lem c.current_va pmtu c.this_length c.base_psn
