-- ===== src/LogPages.antt =====
-- src/lib/logPages.ts: the pages of a lookback over block numbers, newest first.
pub mod Cover
use final_arc.Base.{ℕ, zero, suc, ◌+◌, ◌-◌, Bool, List, [], ◌∷◌, if◌then◌else◌, ltb, leb, ◌==◌}

pub record LogBlockPage : Type 0 where
  pub from_block : ℕ
  pub to_block : ℕ

abbrev pub max_getlogs_block_span : ℕ
max_getlogs_block_span = 9999

unfoldable pub window_start : ℕ → ℕ → ℕ
window_start latest lookback_blocks =
    if ltb lookback_blocks latest then latest - lookback_blocks else 0

unfoldable pub page_from : ℕ → ℕ → ℕ → ℕ
page_from start max_span to_block =
    if ltb (start + max_span) to_block then to_block - max_span else start

-- The `while` loop, on fuel. `fromBlock - 1` is reached only above the start of the window.
unfoldable pub pages_loop : ℕ → ℕ → ℕ → ℕ → List LogBlockPage
pages_loop zero start max_span to_block = []
pages_loop (suc fuel) start max_span to_block =
    let from_block = page_from start max_span to_block in
    let rest = pages_loop fuel start max_span (from_block - 1) in
    if leb start to_block
    then record { from_block = from_block; to_block = to_block }
      ∷ (if from_block == start then [] else rest)
    else []

-- One page for each block is fuel enough.
unfoldable pub log_block_pages : ℕ → ℕ → ℕ → List LogBlockPage
unfolding pages_loop page_from window_start
log_block_pages latest lookback_blocks max_span =
    pages_loop (suc latest) (window_start latest lookback_blocks) max_span latest
