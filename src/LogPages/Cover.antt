-- ===== src/LogPages/Cover.antt =====
-- The pages of src/lib/logPages.ts cover the lookback window, each block once.
use final_arc.Base.{
  ℕ, zero, suc, ◌+◌, ◌-◌, ◌≤◌, ◌<◌, ◌≡◌, Bool, ◌&&◌, List, [], ◌∷◌, if◌then◌else◌, leb, ◌==◌, All,
  arith, length, leb→le, ◌*◌, Bool-cases, inl, inr,
}
use final_arc.LogPages.{
  LogBlockPage, max_getlogs_block_span, window_start, page_from, pages_loop, log_block_pages,
}

-- The pages that hold a block.
abbrev pub holds : ℕ → LogBlockPage → Bool
holds block page = leb page.from_block block && leb block page.to_block

unfoldable pub pages_holding : ℕ → List LogBlockPage → ℕ
pages_holding block [] = 0
pages_holding block (page ∷ pages) =
    let rest = pages_holding block pages in if holds block page then suc rest else rest

-- A page is not empty, stays in the window and spans no more than the node answers.
abbrev pub IsPage : (start last max_span : ℕ) → LogBlockPage → Type 0
IsPage start last max_span page =
    (start ≤ page.from_block)
    × (page.from_block ≤ page.to_block)
    × (page.to_block ≤ last)
    × (page.to_block ≤ page.from_block + max_span)

page_from_bounds :
    (start max_span to_block : ℕ)
    → start ≤ to_block
    → (start ≤ page_from start max_span to_block)
      × (page_from start max_span to_block ≤ to_block)
      × (to_block ≤ page_from start max_span to_block + max_span)
unfolding page_from
page_from_bounds start max_span to_block h = ground arith

-- With fuel for each block, every block of the window is on one page, and others on none.
loop-holding :
    (fuel start max_span to_block block : ℕ)
    → to_block < start + fuel
    → start ≤ to_block
    → pages_holding block (pages_loop fuel start max_span to_block)
      ≡ (if leb start block && leb block to_block then 1 else 0)
unfolding pages_holding pages_loop
loop-holding zero start max_span to_block block h le = absurd (omega arith)
loop-holding (suc fuel) start max_span to_block block h le = ground (
  arith,
  page_from_bounds start max_span to_block le,
  loop-holding fuel start max_span (page_from start max_span to_block - 1) block,
)

loop-IsPage :
    (fuel start last max_span to_block : ℕ)
    → to_block ≤ last
    → All (IsPage start last max_span) (pages_loop fuel start max_span to_block)
unfolding pages_loop
loop-IsPage zero start last max_span to_block h = tt
loop-IsPage (suc fuel) start last max_span to_block h = elim (Bool-cases (leb start to_block)) [
  | inr out ↦ rw (out, pages_loop) tt
  | inl inside ↦
      let bounds = page_from_bounds start max_span to_block (leb→le start to_block inside) in
      elim (Bool-cases (page_from start max_span to_block == start)) [
        | inl done ↦ rw (inside, done, pages_loop) ((bounds.0, bounds.1, h, bounds.2), tt)
        | inr more ↦
            rw (inside, more, pages_loop)
              (
                (bounds.0, bounds.1, h, bounds.2),
                loop-IsPage fuel start last max_span (page_from start max_span to_block - 1)
                    (omega arith),
              )
      ]
]

loop-count :
    (fuel start to_block : ℕ)
    → start ≤ to_block
    → length (pages_loop fuel start max_getlogs_block_span to_block) * 10000
      ≤ to_block - start + 10000
unfolding pages_loop page_from
loop-count zero start to_block h = omega arith
loop-count (suc fuel) start to_block h =
    ground (arith, loop-count fuel start (page_from start max_getlogs_block_span to_block - 1))

module _ (latest lookback_blocks max_span : ℕ) where
  start-le : window_start latest lookback_blocks ≤ latest
  unfolding window_start
  start-le = ground arith

  -- Every block from the start of the window to the latest is on exactly one page, and no other
  -- block is on any page.
  pub log_block_pages-cover :
      (block : ℕ)
      → pages_holding block (log_block_pages latest lookback_blocks max_span)
        ≡ (if leb (window_start latest lookback_blocks) block && leb block latest then 1 else 0)
  unfolding log_block_pages
  log_block_pages-cover block =
      loop-holding (suc latest) (window_start latest lookback_blocks) max_span latest block
        (omega arith) start-le

  -- Each page is a range of at least one block inside the window, and its span is within what one
  -- query may ask for.
  pub log_block_pages-IsPage :
      All
        (IsPage (window_start latest lookback_blocks) latest max_span)
        (log_block_pages latest lookback_blocks max_span)
  unfolding log_block_pages
  log_block_pages-IsPage = loop-IsPage (suc latest) _ latest max_span latest (omega arith)

-- At the span of 9,999 a lookback needs at most one page for every 10,000 blocks, and one more.
pub log_block_pages-count :
    (latest lookback_blocks : ℕ)
    → length (log_block_pages latest lookback_blocks max_getlogs_block_span) * 10000
      ≤ latest - window_start latest lookback_blocks + 10000
unfolding log_block_pages
log_block_pages-count latest lookback_blocks =
    loop-count (suc latest) (window_start latest lookback_blocks) latest
      (start-le latest lookback_blocks 0)
