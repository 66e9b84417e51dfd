-- ===== src/Software/Payload/Bytes.antt =====
-- The bytes of a payload and of a list of elements: the addresses they are read from, in order.
use dtld_rdma_driver.Base.{
  ℕ, zero, suc, ◌+◌, ◌-◌, ◌≤◌, ◌<◌, ◌≡◌, ◌^◌, refl, add64, ap₂, sym, ap, ◌∙◌, List, [], ◌∷◌, ◌++◌,
  length, arith,
}
use mathlib.Core.List.{append_assoc, append-nil}
use dtld_rdma_driver.Device.Work.{DescSge}
use dtld_rdma_driver.Software.Message.{SgListElement}
use dtld_rdma_driver.Software.Payload.{PayloadInfo, add}

abbrev pub range : ℕ → ℕ → List ℕ
range a zero = []
range a (suc n) = a ∷ range (a + 1) n

zero_right : (a : ℕ) → a + zero ≡ a
zero_right a = omega arith

zero_left : (n : ℕ) → n ≡ zero + n
zero_left n = omega arith

next : (a m : ℕ) → a + suc m ≡ a + 1 + m
next a m = omega arith

one_more : (m n : ℕ) → suc (m + n) ≡ suc m + n
one_more m n = omega arith

pub range-append : (a m n : ℕ) → range a m ++ range (a + m) n ≡ range a (m + n)
range-append a zero n = ap₂ range (zero_right a) (zero_left n)
range-append a (suc m) n =
    ap (λ t. a ∷ t)
      (ap (λ (t : ℕ). range (a + 1) m ++ range t n) (next a m) ∙ range-append (a + 1) m n)
    ∙ ap (range a) (one_more m n)

-- Cutting a range that does not reach the end of the address space.
pub range-split :
    (a n taken : ℕ)
    → a + n < 2 ^ 64
    → taken ≤ n
    → range a taken ++ range (add64 a taken) (n - taken) ≡ range a n
range-split a n taken h le =
    ap (λ (t : ℕ). range a taken ++ range t (n - taken)) (omega arith)
    ∙ range-append a taken (n - taken)
    ∙ ap (range a) (omega (arith, le))

pub length-range : (a n : ℕ) → length (range a n) ≡ n
length-range a zero = refl
length-range a (suc n) = ap suc (length-range (a + 1) n)

abbrev pub element_bytes : List SgListElement → List ℕ
element_bytes [] = []
element_bytes (e ∷ es) = range e.from e.len ++ element_bytes es

abbrev pub bytes_of : PayloadInfo → List ℕ
bytes_of payload = element_bytes payload.sg_list

-- The bytes that a list of elements stands for.
abbrev pub sge_bytes : List DescSge → List ℕ
sge_bytes [] = []
sge_bytes (sge ∷ rest) = range sge.addr sge.len ++ sge_bytes rest

element_bytes-append :
    (es fs : List SgListElement) → element_bytes (es ++ fs) ≡ element_bytes es ++ element_bytes fs
element_bytes-append [] fs = refl
element_bytes-append (e ∷ es) fs =
    ap (λ t. range e.from e.len ++ t) (element_bytes-append es fs)
    ∙ sym (append_assoc (range e.from e.len) (element_bytes es) (element_bytes fs))

pub bytes_of-add : (a n : ℕ) (p : PayloadInfo) → bytes_of (add a n p) ≡ bytes_of p ++ range a n
unfolding add
bytes_of-add a n p =
    element_bytes-append p.sg_list (record { from = a; len = n } ∷ [])
    ∙ ap (λ t. bytes_of p ++ t) (append-nil (range a n))
