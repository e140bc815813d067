-- ===== src/Runs.antt =====
-- Runs of the model on small inputs.
mod Auth
mod Frames
mod Noise
mod Pools
mod Datagrams
mod Balance
mod Stun
mod Heartbeat
mod Proxy
mod Upgrade
mod Relays
mod Certs
mod Starts
mod Clients
mod Sessions
mod WsSessions
mod Visits
