-- ===== src/Fl2/Trace.antt =====
-- runtime/FL2Allocator/PoolAllocator.cpp: the access trace. What a call prints is its result.
use poolalloc_3_1_upstreamed.Prelude.{
  ℕ, ◌+◌, ◌*◌, ◌/◌, ◌%◌, ◌^◌, Option, none, some, ltb, ◌==◌, if◌then◌else◌,
}

-- The static `Time` and `Ctr`, and the two entries of `LRUWindow`.
pub record Tracer : Type 0 where
  pub time : ℕ
  pub ctr : ℕ
  pub newest : ℕ
  pub older : ℕ

-- `Ptr & ~31L`.
abbrev pub line_of : ℕ → ℕ
line_of ptr = ptr / 32 * 32

-- The window behind an access to a line that is not the newest.
abbrev pub rotate : Tracer → ℕ → Tracer
rotate v line = record v { newest = line; older = v.newest }

-- Behind the window: one access of 32 is printed, with its time.
unfoldable pub count_access : Tracer → ℕ → Tracer × Option (ℕ × ℕ)
count_access v line =
    let ctr' = (v.ctr + 1) % 2 ^ 32 in
    (record v { ctr = ctr' }, if ctr' % 32 == 0 then some (v.time, line) else none)

-- `poolaccesstrace`.
unfoldable pub poolaccesstrace : Tracer → ℕ → ℕ → Tracer × Option (ℕ × ℕ)
poolaccesstrace v ptr pool =
    let now = record v { time = (v.time + 1) % 2 ^ 32 } in
    let line = line_of ptr in
    if pool == 0
    then (v, none)
    else if ltb 1000000000 ptr
    then (now, none)
    else if line == v.newest
    then (now, none)
    else if line == v.older
    then (rotate now line, none)
    else count_access (rotate now line) line
