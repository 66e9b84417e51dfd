-- ===== src/Software/Logic/Wires.antt =====
-- What the packets of a write look like on the wire: the opcodes that the code chooses are those of
-- the specification.
use dtld_rdma_driver.Base.{
  ℕ, ◌≡◌, refl, inl, inr, Bool, true, false, ◌||◌, ◌&&◌, Option, some, none, if◌then◌else◌,
  Bool-cases,
}
use dtld_rdma_driver.Device.Opcode.{ToHostWorkRbDescOpcode, is_first}
use dtld_rdma_driver.Software.Message.{RdmaMessageMetaCommon, general}
use dtld_rdma_driver.Software.Payload.{PayloadInfo}
use dtld_rdma_driver.Software.Payload.Bytes.{bytes_of}
use dtld_rdma_driver.Software.Request.{
  ToCardWriteDescriptor, is_resp_opcode, last_with_imm, only_with_imm, first_opcode, middle_opcode,
}
use dtld_rdma_driver.Software.Logic.{
  RdmaMessage, Datagram, rdma, rdma_port, packet_meta, write_meta,
}
use dtld_rdma_driver.Software.Logic.Packets.{wire, Message, kind, packet}

abbrev pub message_of : ToCardWriteDescriptor → RdmaMessageMetaCommon → Message
message_of req common_meta = record {
  dqp_ip = req.common.dqp_ip;
  common_meta = record common_meta { psn = 0 };
  rkey = req.common.rkey;
  pmtu = req.common.pmtu;
  is_resp = is_resp_opcode req.opcode;
  imm = req.imm;
}

abbrev pub message :
    RdmaMessageMetaCommon
    → ToCardWriteDescriptor
    → ToHostWorkRbDescOpcode
    → Option ℕ
    → ℕ
    → ℕ
    → ℕ
    → PayloadInfo
    → Datagram
message common_meta req opcode imm va len psn payload =
    let msg : RdmaMessage = record {
      meta_data = general (packet_meta (write_meta req common_meta) opcode imm va len psn);
      payload = payload;
    } in
    rdma req.common.dqp_ip rdma_port msg

pub last_kind :
    (resp : Bool) (imm : Option ℕ) (ends : Bool) (len : ℕ)
    → let (opcode, i) = if ends then last_with_imm resp imm else (middle_opcode resp, none) in
      (opcode, i, if is_first opcode then len else 0) ≡ kind resp imm ends none
unfolding is_first last_with_imm
last_kind true imm true len = refl
last_kind false (some i) true len = refl
last_kind false none true len = refl
last_kind true imm false len = refl
last_kind false none false len = refl
last_kind false (some i) false len = refl

pub begin_kind :
    (resp : Bool) (imm : Option ℕ) (starts : Bool) (len other : ℕ)
    → let opcode = if starts then first_opcode resp else middle_opcode resp in
      (opcode, none, if is_first opcode then if is_first opcode then len else other else 0)
      ≡ kind resp imm false (if starts then some len else none)
unfolding is_first
begin_kind true imm true len other = refl
begin_kind false none true len other = refl
begin_kind false (some i) true len other = refl
begin_kind true imm false len other = refl
begin_kind false none false len other = refl
begin_kind false (some i) false len other = refl

pub only_kind :
    (resp : Bool) (imm : Option ℕ) (starts ends : Bool) (len other : ℕ)
    → (starts || ends) ≡ true
    → let (opcode, i) =
        if starts && ends
        then only_with_imm resp imm
        else if starts
        then (first_opcode resp, none)
        else last_with_imm resp imm in
      (opcode, i, if is_first opcode then if is_first opcode then len else other else 0)
      ≡ kind resp imm ends (if starts then some len else none)
unfolding is_first only_with_imm last_with_imm
only_kind true imm true true len other h = refl
only_kind false (some i) true true len other h = refl
only_kind false none true true len other h = refl
only_kind true imm true false len other h = refl
only_kind false none true false len other h = refl
only_kind false (some i) true false len other h = refl
only_kind true imm false true len other h = refl
only_kind false (some i) false true len other h = refl
only_kind false none false true len other h = refl
only_kind resp imm false false len other h = absurd (cc)

pub middle_kind :
    (resp : Bool) (imm : Option ℕ) (len : ℕ)
    → (middle_opcode resp, none, if is_first (middle_opcode resp) then len else 0)
      ≡ kind resp imm false none
unfolding is_first
middle_kind true imm len = refl
middle_kind false none len = refl
middle_kind false (some i) len = refl

module _ (req : ToCardWriteDescriptor) (common_meta : RdmaMessageMetaCommon) where
  abbrev m : Message
  m = message_of req common_meta

  pub wire-message :
      (opcode : ToHostWorkRbDescOpcode) (imm : Option ℕ) (va len psn : ℕ) (payload : PayloadInfo)
      → wire (message common_meta req opcode imm va len psn payload)
        ≡ packet m (opcode, imm, if is_first opcode then len else 0) va psn (bytes_of payload)
  wire-message opcode imm va len psn payload = elim (Bool-cases (is_first opcode)) [
    | inl e ↦ rw e refl
    | inr e ↦ rw e refl
  ]
