-- ===== src/Examples.antt =====
-- Tests on concrete inputs, and instances of the theorems.
mod Run
mod Ids
mod Snmp
mod Store
mod Runner
mod Cleanup
mod Control
mod Execution
mod Envfile
mod Observe
mod Owed
mod Retention
mod Rotation
mod Scenario
