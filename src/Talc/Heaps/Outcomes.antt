-- ===== src/Talc/Heaps/Outcomes.antt =====
-- How `Talc::claim` of talc/src/talc.rs ends.
use talc.Base.{ℕ, ◌<◌, ◌≡◌, ◌↔◌, true, false, arith, ◌==◌, if◌then◌else◌}
use talc.Span.{Span, size, get_base_acme, word_align_inward, contains}
use talc.Talc.State.{Talc}
use talc.Talc.Outcome.{err, panic}
use talc.Talc.Heaps.{claim}

-- The size that a heap needs: room for the bins if they are not placed yet.
abbrev pub needed : Talc → ℕ
needed t = if t.bins == 0 then 1040 else 32

-- Claim panics exactly if the span contains the null address.
pub claim_panics_iff :
    (memory : Span) (t : Talc) → (claim memory t ≡ panic) ↔ (contains memory 0 ≡ true)
unfolding claim get_base_acme
claim_panics_iff memory t = ground arith

-- Claim gives an error with a state exactly if that state is the one before, the span does not
-- contain the null address, and its aligned part is smaller than a minimal heap, or than the bins
-- and two tags while the bins are not placed.
pub claim_errs_iff :
    (memory : Span) (t t' : Talc)
    → (claim memory t ≡ err t')
      ↔ ((t' ≡ t) × (contains memory 0 ≡ false) × (size (word_align_inward memory) < needed t))
unfolding claim get_base_acme size
claim_errs_iff memory t t' = ground arith
