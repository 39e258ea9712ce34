-- ===== src/FreeList/Pages.antt =====
-- runtime/FreeListAllocator/PageManager.cpp. The address that `AllocateSpaceWithMMAP` returns, and
-- the page size that `sysconf` reports, are arguments.
use poolalloc_3_1_upstreamed.Prelude.{
  ℕ, zero, suc, ◌+◌, ◌*◌, Option, none, some, List, [], ◌∷◌, ◌==◌, if◌then◌else◌,
}

-- `PageSize`, and `FreePages`: null, or a vector, whose last element is the first here.
pub record Pages : Type 0 where
  pub page_size : ℕ
  pub free_pages : Option (List ℕ)

unfoldable pub initialize_page_manager : ℕ → Pages → Pages
initialize_page_manager system m =
    if m.page_size == 0 then record { page_size = system; free_pages = none } else m

-- `FreePages->push_back(Ptr+i*PageSize)` from `i` on, for `left` pages.
unfoldable pub push_extra : ℕ → ℕ → ℕ → ℕ → List ℕ → List ℕ
push_extra size ptr i zero pages = pages
push_extra size ptr i (suc left) pages = push_extra size ptr (i + 1) left ((ptr + i * size) ∷ pages)

-- The first page of eight, where the space for them begins at `ptr`.
unfoldable pub map_eight : ℕ → Pages → Pages × ℕ
map_eight ptr m = (record m { free_pages = some (push_extra m.page_size ptr 1 7 []) }, ptr)

unfoldable pub take_page : ℕ → Pages → Option (List ℕ) → Pages × ℕ
take_page ptr m none = map_eight ptr m
take_page ptr m (some []) = map_eight ptr m
take_page ptr m (some (page ∷ pages)) = (record m { free_pages = some pages }, page)

-- `AllocatePage`.
unfoldable pub allocate_page : ℕ → Pages → Pages × ℕ
allocate_page ptr m = take_page ptr m m.free_pages

unfoldable pub give_page : Pages → ℕ → Option (List ℕ) → Option Pages
give_page m page none = none
give_page m page (some pages) = some (record m { free_pages = some (page ∷ pages) })

-- `FreePage`; `none` where the assert fails.
unfoldable pub free_page : Pages → ℕ → Option Pages
free_page m page = give_page m page m.free_pages
