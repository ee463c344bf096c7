-- ===== src/Scripts.antt =====
-- The k6 scripts of engines/k6: one module each. `options` is what the script exports to k6, and
-- `iteration` its default function, one round of one virtual user.
pub mod Login
pub mod AuthRefresh
pub mod AuthCheckout
pub mod AuthSessionMfa
pub mod Crud
pub mod Smoke
pub mod StressCpu
pub mod StressIo
pub mod StressData
pub mod Echo
pub mod Latency
pub mod Flaky
pub mod ResourceCpu
pub mod DbCrud
pub mod DbList
pub mod Payload
pub mod PayloadDownload
pub mod PayloadFile
pub mod PayloadArchive
pub mod PayloadTar
pub mod Sse
pub mod Sockets
pub mod WsEcho
pub mod WsBroadcast
