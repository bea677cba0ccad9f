-- ===== src/Examples.antt =====
-- Runs of the development at concrete inputs: a device that answers from a list, a kernel that takes
-- all it is given, and the theorems applied to them.
pub mod Device
mod Protocol
pub mod Files
mod Sessions
mod Locks
mod Data
mod Usb
mod Sorts
mod Firmware
mod Proc
mod Traces
mod Descriptors
pub mod Directory
mod Upload
mod Download
mod Pieces
mod Unplugged
