-- ===== src/Software/Memory/Access.antt =====
-- What an arriving packet may write, and what a registration allows.
use dtld_rdma_driver.Base.{
  ℕ, ◌+◌, ◌^◌, ◌<◌, ◌≤◌, ◌≡◌, ◌≢◌, ◌↔◌, refl, sym, ap, subst, ◌∙◌, inl, inr, Bool, true, false,
  ◌&&◌, ◌||◌, Option, some, none, List, [], ◌∷◌, All, arith, Bool-cases, Option-cases, ltb, add64,
}
use dtld_rdma_driver.Device.Work.{
  ToHostWorkRbDescStatus, normal, inv_acc_flag, inv_opcode, inv_mr_key, inv_mr_region, unknown,
  is_ok,
}
use dtld_rdma_driver.Device.Ctrl.{ToCardCtrlRbDescUpdateMrTable, update_mr_table}
use dtld_rdma_driver.Device.Opcode.{ToHostWorkRbDescOpcode}
use dtld_rdma_driver.Device.Report.{ToHostWorkRbDesc}
use dtld_rdma_driver.Checker.Contexts.{lookup}
use dtld_rdma_driver.Checker.Contexts.Lookup.{lookup-put, lookup-put_ne}
use dtld_rdma_driver.Software.Message.{
  SgListElement, RdmaGeneralMeta, general, has_payload, needed_permissions, access_remote_write,
}
use dtld_rdma_driver.Software.Logic.{RdmaMessage}
use dtld_rdma_driver.Software.Memory.{
  MemoryRegion, Tables, contains, check_region, validate_rkey, Copy, copy_to, Received, copies_made,
  received, recv_by_meta, recv_general, recv, region_of, update,
}

abbrev pub payload_size : List SgListElement → ℕ
payload_size [] = 0
payload_size (element ∷ rest) = element.len + payload_size rest

-- A piece of memory from `lo` on and before `hi`.
abbrev pub Inside : ℕ → ℕ → Copy → Type 0
Inside lo hi c = (lo ≤ c.to) × (c.to + c.len ≤ hi)

copy_to-Inside :
    (lo hi dst : ℕ) (elements : List SgListElement)
    → lo ≤ dst
    → dst + payload_size elements ≤ hi
    → All (Inside lo hi) (copy_to dst elements)
unfolding copy_to
copy_to-Inside lo hi dst [] low high = tt
copy_to-Inside lo hi dst (element ∷ rest) low high = (
  (low, omega (arith, high)),
  copy_to-Inside lo hi (dst + element.len) rest (omega (arith, low)) (omega (arith, high)),
)

within :
    (a n va l : ℕ)
    → a + n < 2 ^ 64
    → va + l < 2 ^ 64
    → (a ≤ va) × (va + l ≤ a + n)
    → (ltb va a || ltb (add64 a n) (add64 va l)) ≢ true
within a n va l h g (low, high) e = ground arith

not_outside :
    (a n va l : ℕ)
    → a + n < 2 ^ 64
    → va + l < 2 ^ 64
    → (ltb va a || ltb (add64 a n) (add64 va l)) ≡ false
    → (a ≤ va) × (va + l ≤ a + n)
not_outside a n va l h g e = ground arith

-- What the test of a region comes to where neither end wraps around.
check_region_lem :
    (mr : MemoryRegion) (needed va length : ℕ)
    → mr.addr + mr.len < 2 ^ 64
    → va + length < 2 ^ 64
    → (check_region mr needed va length ≡ normal)
      ↔ ((contains mr.acc_flags needed ≡ true) × (mr.addr ≤ va) × (va + length ≤ mr.addr + mr.len))
unfolding check_region
check_region_lem mr needed va length h g =
    let outside = ltb va mr.addr || ltb (add64 mr.addr mr.len) (add64 va length) in
    elim (Bool-cases (contains mr.acc_flags needed)) [
      | inr e ↦ rw e ((λ c. absurd (cc)), λ c. absurd (cc))
      | inl e ↦ elim (Bool-cases outside) [
        | inl f ↦
            rw (e, f)
              ((λ c. absurd (cc)), λ c. absurd (within mr.addr mr.len va length h g (c.1, c.2) f))
        | inr f ↦
            rw (e, f)
              (
                (λ c.
                    let (low, high) = not_outside mr.addr mr.len va length h g f in
                    (refl, low, high)),
                λ c. refl,
              )
      ]
    ]

-- Where a registration does not wrap around, and neither does the access, a region that is registered under a key is open to exactly the
-- accesses that its flags allow and that lie inside it, whatever stood under this key before; what holds of another key stays as it was.
pub update-validate_rkey :
    (desc : ToCardCtrlRbDescUpdateMrTable) (t : Tables) (needed va length : ℕ)
    → desc.addr + desc.len < 2 ^ 64
    → va + length < 2 ^ 64
    → let t' = (update (update_mr_table desc) t).1 in
      ((validate_rkey t' desc.key needed va length ≡ normal) ↔ (
        (contains desc.acc_flags needed ≡ true)
        × (desc.addr ≤ va)
        × (va + length ≤ desc.addr + desc.len)))
      × ((key : ℕ)
          → key ≢ desc.key
          → validate_rkey t' key needed va length ≡ validate_rkey t key needed va length)
unfolding update validate_rkey
update-validate_rkey desc t needed va length h g = (
  rw (lookup-put desc.key (region_of desc) t.mr_rkey_table, validate_rkey)
      (check_region_lem (region_of desc) needed va length h g),
  λ key other.
      rw (lookup-put_ne key desc.key (region_of desc) t.mr_rkey_table other, validate_rkey) refl,
)

-- A piece of memory inside a region that is registered for remote writes under a key.
abbrev pub Writable : Tables → ℕ → Copy → Type 0
Writable t rkey c =
    (mr : MemoryRegion) × (lookup rkey t.mr_rkey_table ≡ some mr)
    × (contains mr.acc_flags access_remote_write ≡ true)
    × Inside mr.addr (mr.addr + mr.len) c

inv_key_ne_normal : inv_mr_key ≢ normal
inv_key_ne_normal e = absurd (cc)

missing_key :
    (t : Tables) (rkey needed va length : ℕ)
    → lookup rkey t.mr_rkey_table ≡ none
    → validate_rkey t rkey needed va length ≡ inv_mr_key
unfolding validate_rkey
missing_key t rkey needed va length e = rw (e, validate_rkey) refl

found_key :
    (t : Tables) (rkey needed va length : ℕ) (mr : MemoryRegion)
    → lookup rkey t.mr_rkey_table ≡ some mr
    → validate_rkey t rkey needed va length ≡ check_region mr needed va length
unfolding validate_rkey
found_key t rkey needed va length mr e = rw (e, validate_rkey) refl

validated :
    (t : Tables) (rkey needed va length : ℕ)
    → ((key : ℕ) (mr : MemoryRegion)
        → lookup key t.mr_rkey_table ≡ some mr
        → mr.addr + mr.len < 2 ^ 64)
    → va + length < 2 ^ 64
    → validate_rkey t rkey needed va length ≡ normal
    → (mr : MemoryRegion) × (lookup rkey t.mr_rkey_table ≡ some mr)
      × (contains mr.acc_flags needed ≡ true)
      × (mr.addr ≤ va)
      × (va + length ≤ mr.addr + mr.len)
unfolding validate_rkey
validated t rkey needed va length h g e = elim (Option-cases (lookup rkey t.mr_rkey_table)) [
  | inl missing ↦ absurd (inv_key_ne_normal (sym (missing_key t rkey needed va length missing) ∙ e))
  | inr (mr, found) ↦
      let (flags, low, high) =
        (check_region_lem mr needed va length (h rkey mr found) g).0
          (sym (found_key t rkey needed va length mr found) ∙ e) in
      (mr, found, flags, low, high)
]

abbrev copies_of : Option Received → List Copy
copies_of none = []
copies_of (some r) = r.copies

received-copies :
    (copies : List Copy) (o : Option (Option ToHostWorkRbDesc)) (r : Received)
    → received copies o ≡ some r
    → r.copies ≡ copies
received-copies copies none r e = absurd (cc)
received-copies copies (some d) r e = sym (ap copies_of e)

only_ok : (status : ToHostWorkRbDescStatus) → is_ok status ≡ true → status ≡ normal
unfolding is_ok
only_ok normal e = refl
only_ok inv_acc_flag e = absurd (cc)
only_ok inv_opcode e = absurd (cc)
only_ok inv_mr_key e = absurd (cc)
only_ok inv_mr_region e = absurd (cc)
only_ok unknown e = absurd (cc)

and_false : (b : Bool) → (b && false) ≡ false
and_false true = refl
and_false false = refl

copies_made-All :
    (P : Copy → Type 0) (status : ToHostWorkRbDescStatus) (with_payload : Bool) (va : ℕ)
    (elements : List SgListElement)
    → (status ≡ normal → with_payload ≡ true → All P (copy_to va elements))
    → All P (copies_made status with_payload va elements)
copies_made-All P status false va elements h = rw (and_false (is_ok status)) tt
copies_made-All P status true va elements h = elim (Bool-cases (is_ok status)) [
  | inl e ↦ rw e (h (only_ok status e) refl)
  | inr e ↦ rw e tt
]

All-map : (P Q : Copy → Type 0) (cs : List Copy) → ((c : Copy) → P c → Q c) → All P cs → All Q cs
All-map P Q [] f ps = tt
All-map P Q (c ∷ cs) f (p, ps) = (f c p, All-map P Q cs f ps)

needs_write :
    (opcode : ToHostWorkRbDescOpcode)
    → has_payload opcode ≡ true
    → needed_permissions opcode ≡ access_remote_write
unfolding needed_permissions
needs_write opcode e = rw e refl

-- Whatever of an arriving packet is written to memory lies inside a region that is registered for remote
-- writes under the packet's key, if the packet carries no more bytes than its header says and neither
-- the registrations nor the access wrap around.
pub recv-Writable :
    (t : Tables) (message : RdmaMessage) (header : RdmaGeneralMeta) (r : Received)
    → ((key : ℕ) (mr : MemoryRegion)
        → lookup key t.mr_rkey_table ≡ some mr
        → mr.addr + mr.len < 2 ^ 64)
    → message.meta_data ≡ general header
    → header.reth.va + header.reth.len < 2 ^ 64
    → payload_size message.payload.sg_list ≤ header.reth.len
    → recv t message ≡ some r
    → All (Writable t header.reth.rkey) r.copies
unfolding recv recv_general
recv-Writable t message header r h e g size got =
    let opcode = header.common_meta.opcode in
    let status =
      validate_rkey t header.reth.rkey (needed_permissions opcode) header.reth.va header.reth.len in
    let got' = sym (ap (recv_by_meta t message) e) ∙ got in
    subst (All (Writable t header.reth.rkey)) (sym (received-copies _ _ r got')) (
      copies_made-All (Writable t header.reth.rkey) status (has_payload opcode) header.reth.va
        message.payload.sg_list
        (λ fine with_payload.
          let (mr, found, flags, low, high) =
            validated t header.reth.rkey _ header.reth.va header.reth.len h g fine in
          All-map (Inside mr.addr (mr.addr + mr.len)) (Writable t header.reth.rkey)
            (copy_to header.reth.va message.payload.sg_list)
            (λ c inside. (
              mr,
              found,
              subst (λ (n : ℕ). contains mr.acc_flags n ≡ true) (needs_write opcode with_payload)
                  flags,
              inside,
            ))
            (copy_to-Inside mr.addr (mr.addr + mr.len) header.reth.va message.payload.sg_list low
              (omega (arith, high, size)))))
