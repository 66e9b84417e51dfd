-- ===== src/Lib.antt =====
-- A verification library for the Rust driver of the RDMA card (rust_driver/src): the logic between
-- the user's requests and the card's rings, as functions on explicit state.
--
-- The parts and how they interact. A write or a read of the user (lib.rs; Requests) gets the next
-- numbers of its queue pair, an operation context that the user waits on (op_ctx.rs; OpCtx), and
-- becomes a work descriptor (Device.Work, from device/types.rs). The scheduler cuts it into
-- segments that end at multiples of its size (split_descriptor in device/scheduler/mod.rs;
-- Device.Scheduler), queues them per queue pair and takes batches in turns
-- (device/scheduler/round_robin.rs; Device.Scheduler.RoundRobin), and writes them into a ring that
-- the card reads (device/ringbuf.rs; Ringbuf). Control requests go the same way through a ring of
-- their own, and a poller hands their answers to the contexts (lib.rs, ctrl_poller.rs; Control).
-- What the card reports of arriving packets goes through rings read in the other direction to the
-- checker (checker.rs; Checker), which keeps a window of the received packets of each message and
-- answers with acknowledgements, wake-ups and recovery. Requests stay in the retry map until they
-- are acknowledged (retry.rs; Retry). The card in software (device/software; Software) takes the
-- scheduler's segments in place of a ring, sends them as packets, and writes arriving packets to
-- registered memory. Sequence numbers are Types.Psn (types.rs), packet arithmetic is Utils
-- (utils.rs).
--
-- Which file models what (paths of the source are from rust_driver/src):
--   Types, Types/Psn       types.rs: Pmtu, QpType, PSN_MAX_WINDOW_SIZE and ThreeBytesStruct (Psn and
--                          Qpn): new, into_be, from_be, wrapping_add, wrapping_sub, wrapping_abs,
--                          larger_in_psn
--   Utils                  utils.rs: get_first_packet_max_length, calculate_packet_cnt, align_up,
--                          u8_slice_to_u64
--   Device, Device/Work, Device/Opcode, Device/Ctrl
--                          device/types.rs: errors, work descriptors, opcodes, control descriptors
--   Device/Scheduler       device/scheduler/mod.rs: cut_from_sgl, recalculate_psn, split_descriptor
--                          with its loop; Pieces is the specification of the segments, Turn one turn
--                          of the loop, Marks the first and last marks, Split and Packets the results
--   Device/Scheduler/RoundRobin
--                          device/scheduler/round_robin.rs: push and pop_batch; Valid is the
--                          invariant of the queue, Fifo and Runs the order, Fair the turns
--   Ringbuf                device/ringbuf.rs: the index helpers and Ringbuf::new; Writer, Reader and
--                          Poller are the three handles, Index the meaning of the indices, Channel a
--                          writer and the peer that shares the ring with it
--   Checker/Window         checker.rs: SlidingWindow; Order and Merge show what insert does, Cover
--                          which offsets it adds, Complete and Record when a window is complete
--   Checker/Contexts       checker.rs: RecvContext, PerQpContextMap, RecvContextMap
--   Checker/Handler        checker.rs: handle_check_event and what it calls
--   Retry                  retry.rs: RetryMap, psn_addr_offset, get_descritpor, check_timeout
--   Software/Message, Software/Payload, Software/Request
--                          device/software/types.rs: messages, payloads and element lists, requests
--                          and their opcodes; Payload/Bytes and Payload/Cut say which bytes cut takes
--   Software/Logic         device/software/logic.rs: send and the packets it makes, and the loop of
--                          device/scheduler/mod.rs that sends a batch; Packets is the specification of
--                          the packets, Boundary is about where they end, Wires, Rest and Send compare
--                          the code with it, Shape, Segment, Segments and Whole compare segments with
--                          the whole request, Asked reads the packets off the descriptor, Delivery
--                          brings them to the receiver's window
--   Software/Memory        device/software/logic.rs: update, validate_rkey and recv; Access says what a
--                          packet may write
--   OpCtx                  op_ctx.rs: the contexts of operations; Steps lets threads use one in any
--                          order, Waiting shows that a thread that waits is woken
--   Requests               lib.rs: write_or_read; device/types.rs: the builder of descriptors; qp.rs:
--                          the numbers of a queue pair; Numbers is about these, Reuse about the map of
--                          contexts
--   Control                lib.rs: do_ctrl_op, send_ctrl_desc; ctrl_poller.rs: what the poller does with
--                          an answer; Answer is the way to the card in software and back
--   Base                   machine words, Boolean tests, list lemmas, results, bit masks
--
-- Conventions. Numbers are natural numbers with the wrap-around of Rust's operators written out
-- where the code wraps; usize has 64 bits. A panic is `none`; an error is a value. What is not in
-- the repository is an argument: the registers of the card and the clock are lists of polls (the
-- reply and the elapsed time of each turn of a waiting loop), so that a loop is structural
-- recursion and a call that has not yet come to an end is `waiting`. The network agent of the card
-- in software is a function from what was sent to an error or none; payloads are the addresses
-- they are read from. In the channel the card does only what the ring's protocol lets it do: it
-- takes the slot at its tail while its head register differs from its tail; everything is shown
-- for every order of the two sides' steps. Maps are association lists, the ordered map of the
-- window a list in the order of its keys. Effects on other parts are lists.
--
-- Fuel. The loop of split_descriptor has as much fuel as the message has bytes, and one more; each
-- turn takes at least a byte, so that it does not run out, and the theorem on its result says that
-- there is one. The loop of cut_from_sgl has one turn more than the list has levels. The loop of
-- pop_batch runs on the number of free slots. The loop of send has as much fuel as the request has
-- bytes; each turn takes the packet size, which is positive.
--
-- Not modelled: memory mapping and buffers, the byte layout of descriptors (accessors made by a
-- macro), threads and channels, the rest of the objects behind the user's handles (lib.rs, qp.rs,
-- mr.rs, pd.rs), the work poller (work_poller.rs), packet building (responser.rs) and the headers
-- of device/software/packet.rs, the emulated and the hardware device, the basic NIC and the kernel
-- module in driver/.
pub mod Base
pub mod Types
pub mod Utils
pub mod Device
pub mod Ringbuf
pub mod Checker
pub mod Control
pub mod OpCtx
pub mod Requests
pub mod Retry
pub mod Software
