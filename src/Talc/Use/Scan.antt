-- ===== src/Talc/Use/Scan.antt =====
-- The debug check of talc/src/talc.rs in the states that a client brings about.
use talc.Base.{ℕ, ◌^◌, ◌≤◌, ◌≡◌, List}
use talc.Span.{Span}
use talc.Talc.State.{Talc}
use talc.Talc.Outcome.{ok}
use talc.Talc.Chunks.Scan.{scan_passes}
use talc.Talc.Scan.{scan_for_errors}
use talc.Talc.Use.{Allocation, Use}
use talc.Talc.Use.Safety.{Use-Inv}

-- In every state that a client brings about, as in Use, with fuel for 2^60 gaps in a bin, no
-- assertion of the debug check scan_for_errors fails.
pub scan_for_errors_passes :
    (t : Talc) (heaps : List Span) (live : List Allocation) (nodes : ℕ)
    → Use t heaps live
    → 2 ^ 60 ≤ nodes
    → scan_for_errors nodes t ≡ ok tt t
scan_for_errors_passes t heaps live nodes u enough =
    let i = Use-Inv t heaps live u in scan_passes t i.chunks i.holds nodes i.placed enough
