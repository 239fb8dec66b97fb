-- ===== src/Vm.antt =====
-- primus-vm: the execution of reactions against a state view.
pub mod Physics
pub mod Error
pub mod Gas
pub mod Context
pub mod Evolution
pub mod Pvm
pub mod Host
pub mod Dispatch
