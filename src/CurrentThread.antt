-- ===== src/CurrentThread.antt =====
-- src/CurrentThread.h and src/CurrentThread.cc: the thread's id, asked of the kernel once.
use moduo.Prelude.{ℕ, ◌==◌, if◌then◌else◌}

-- `t_cachedTid` after `cacheTid`; `gettid` is the answer of the kernel in this thread.
unfoldable pub cache_tid : (gettid cached : ℕ) → ℕ
cache_tid gettid cached = if cached == 0 then gettid else cached

-- The id, and `t_cachedTid` after the call.
unfoldable pub tid : (gettid cached : ℕ) → ℕ × ℕ
unfolding cache_tid
tid gettid cached =
    let after = if cached == 0 then cache_tid gettid cached else cached in (after, after)
