-- ===== src/Tests/Claims.antt =====
-- Runs of the models of `claim` and `malloc` of talc/src/talc.rs.
use talc.Base.{◌<◌, ◌≡◌, refl, ◌↔◌, false, arith}
use talc.PtrUtils.{align_up, align_down}
use talc.Span
use talc.Span.{Span, contains, size, word_align_inward}
use talc.Talc.State.{Talc}
use talc.Talc.Gaps.View.{Holds}
use talc.Talc.Outcome.{ok, err}
use talc.Talc.Heaps
use talc.Talc.Heaps.{claim}
use talc.Talc.Heaps.First.{first_view, claim-first}
use talc.Talc.Heaps.Outcomes.{needed, claim_errs_iff}

abbrev fresh : Talc
unfolding Heaps.new
fresh = Heaps.new (λ a. 0)

abbrev memory : Span
memory = Span.new 8190 16390

claim-first_example :
    (s : Talc) × (claim memory fresh ≡ ok (Span.new 8192 16384) s) × Holds s (first_view 8192 16384)
unfolding Heaps.new align_up align_down word_align_inward contains
claim-first_example =
    claim-first fresh refl refl 8192 16384 refl refl (omega arith) (omega arith) memory refl refl
      refl

claim_errs_iff_example : (claim memory fresh ≡ err fresh) ↔ (
    (fresh ≡ fresh)
    × (contains memory 0 ≡ false)
    × (size (word_align_inward memory) < needed fresh))
claim_errs_iff_example = claim_errs_iff memory fresh fresh
