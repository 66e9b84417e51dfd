-- ===== src/Device.antt =====
-- rust_driver/src/device/: what the driver and the card exchange.
pub mod Work
pub mod Opcode
pub mod Ctrl
pub mod Report
pub mod Scheduler
use Prim.Native.String.{String}

-- `DeviceError` of device/types.rs
pub data DeviceError : Type 0 where
  device scheduler parse_desc : String → DeviceError
  timeout : DeviceError
