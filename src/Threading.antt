-- ===== src/Threading.antt =====
-- root/app/libs/threading: the pool of worker threads.
pub mod ThreadPool
