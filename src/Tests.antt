-- ===== src/Tests.antt =====
-- Runs of the model on small inputs, and the theorems at inputs that meet their hypotheses.
mod WorkerRuns
mod MemoryRuns
mod VectorRuns
mod SyncRuns
mod SchedulerRuns
mod AffinityRuns
mod DagRuns
mod LinkedRuns
mod ThreadRuns
mod ParallelRuns
mod PoolRuns
mod FinallyRuns
mod FiberRuns
mod TeardownRuns
mod ConfigRuns
