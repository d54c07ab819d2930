-- ===== src/Cache.antt =====
-- src/lib/posix_cache.cpp: files that are written to a local directory at once and to their own
-- place by a thread in the background. File is the object of one open file, Async the queue
-- between the writers and that thread, with what its runs guarantee in History.
pub mod File
pub mod Async
mod Tests
