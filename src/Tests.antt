-- ===== src/Tests.antt =====
-- Concrete inputs: the theorems at inputs that meet their hypotheses, and small runs of the models.
mod Data
mod WalTests
mod JournalTests
mod ServiceTests
mod DrainedTests
mod RestartTests
mod LateTests
mod OutageTests
mod ConsumerTests
mod RedisTests
mod PiiTests
mod ApiTests
mod AdminTests
mod DrainTests
mod ConcurrentTests
mod ShutdownTests
