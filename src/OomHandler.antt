-- ===== src/OomHandler.antt =====
-- talc/src/oom_handler.rs: the interface of out-of-memory handlers, and the two that every target
-- has. A handler works on the allocator and on its own state, which the allocator owns.
pub mod Wasm
use talc.Base.{not, if◌then◌else◌}
use talc.Span
use talc.Span.{Span}
use talc.Talc.Layout.{Layout}
use talc.Talc.State.{Talc}
use talc.Talc.Outcome.{Outcome, ok, err, panic, out_of_fuel}
use talc.Talc.Heaps.{claim}

-- `Talc<O>`: the allocator's fields and the handler.
pub record Allocator (O : Type 0) : Type 0 where
  pub talc : Talc
  pub oom_handler : O

pub record OomHandler (O : Type 0) : Type 0 where
  pub handle_oom : Layout → Allocator O → Outcome (Allocator O) (Unit {0})

abbrev pub err_on_oom : OomHandler (Unit {0})
err_on_oom = record { handle_oom = λ layout s. err s }

-- `ClaimOnOom::new`: the handler is its span.
abbrev pub claim_on_oom_new : Span → Span
claim_on_oom_new span = span

unfoldable pub claim_handle_oom : Layout → Allocator Span → Outcome (Allocator Span) (Unit {0})
claim_handle_oom layout s =
    if not (Span.is_empty s.oom_handler)
    then elim (claim s.oom_handler s.talc) [
      | ok heap t ↦ ok tt (record { talc = t; oom_handler = Span.empty })
      | err t ↦ err (record s { talc = t })
      | panic ↦ panic
      | out_of_fuel ↦ out_of_fuel
    ]
    else err s

-- `ClaimOnOom`, whose state is the span to claim.
abbrev pub claim_on_oom : OomHandler Span
claim_on_oom = record { handle_oom = claim_handle_oom }
