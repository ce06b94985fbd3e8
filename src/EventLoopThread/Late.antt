-- ===== src/EventLoopThread/Late.antt =====
-- The destructor against a loop that has already ended.
use moduo.EventLoopThread.{EventLoopThread}
