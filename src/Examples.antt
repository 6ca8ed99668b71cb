-- ===== src/Examples.antt =====
-- Tests and examples: concrete libraries for the parameters of the model, and each theorem that has
-- hypotheses applied where they hold.
pub mod Firmware
pub mod Machine
pub mod Options
pub mod Keys
pub mod Network
pub mod Boot
pub mod Session
pub mod Server
pub mod Client
pub mod Exchange
pub mod Lab
pub mod Provisioning
pub mod Refinement
pub mod Together
