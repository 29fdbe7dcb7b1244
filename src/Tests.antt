-- ===== src/Tests.antt =====
-- Runs of the model on small inputs, and instances of the theorems.
mod Samples
mod EngineRuns
mod PoolWitnesses
mod LogWitnesses
mod ConcurrentWitnesses
mod AllocatorWitnesses
mod CrashWitnesses
mod ConfigWitnesses
mod FencedWitnesses
mod HarnessWitnesses
mod CatalogWitnesses
mod EngineUnits
mod RecoveryUnits
mod CompactionUnits
mod MetricsUnits
mod LayoutUnits
