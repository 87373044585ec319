-- ===== src/Tests/PageRuns.antt =====
-- Log pages (src/lib/logPages.ts) of a short lookback.
use final_arc.Base.{◌≡◌, refl, ◌&&◌, [], ◌∷◌, if◌then◌else◌, leb}
use final_arc.LogPages.{window_start, log_block_pages}
use final_arc.LogPages.Cover.{pages_holding, log_block_pages-cover}

three_pages :
    log_block_pages 25 20 9
    ≡ record { from_block = 16; to_block = 25 }
      ∷ record { from_block = 6; to_block = 15 }
      ∷ record { from_block = 5; to_block = 5 }
      ∷ []
unfolding log_block_pages
three_pages = refl

log_block_pages-cover_example :
    pages_holding 15 (log_block_pages 25 20 9)
    ≡ (if leb (window_start 25 20) 15 && leb 15 25 then 1 else 0)
log_block_pages-cover_example = log_block_pages-cover 25 20 9 15
