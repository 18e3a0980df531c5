-- ===== src/Tests.antt =====
-- The theorems at concrete tables, chains, packets and rings.
mod Starting
mod Data
mod Lookup
mod Chains
mod Packets
mod Registration
mod Receive
mod Scaling
mod Arguments
mod Runtime
mod Turns
mod Loop
mod Displays
mod Nfs
mod NfStarts
mod Flows
