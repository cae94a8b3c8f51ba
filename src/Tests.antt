-- ===== src/Tests.antt =====
-- Runs of the modelled code, with concrete functions in the place of the packages it calls.
mod Toy
mod ToyCodecs
mod CoreRuns
mod KeyRuns
mod HandshakeRuns
mod MessageRuns
mod StoreRuns
mod TableRuns
mod SrpRuns
mod KeystoreRuns
mod CreationRuns
mod ServiceRuns
mod RpcRuns
mod DeliveryRuns
mod PrekeyRuns
mod LoginRuns
mod ReceptionRuns
mod RatchetRuns
