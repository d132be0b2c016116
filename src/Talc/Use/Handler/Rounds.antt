-- ===== src/Talc/Use/Handler/Rounds.antt =====
-- A round of `Talc::malloc` of talc/src/talc.rs with any out-of-memory handler: where it finds no gap,
-- it is the handler's answer that decides.
use talc.Base.{ℕ, suc, ◌≡◌, refl, sym, subst}
use talc.OomHandler.{Allocator, OomHandler, err_on_oom}
use talc.Talc.Layout.{Layout}
use talc.Talc.State.{Talc}
use talc.Talc.Outcome.{Outcome, ok, err, panic, out_of_fuel}
use talc.Talc.Malloc.{Search, found, exhausted, Chunk, get_sufficient_chunk, carve}
use talc.Talc.Loop.{malloc}
use talc.Talc.Use.{on_err}

module _ {O : Type 0} (handler : OomHandler O) (nodes : ℕ) (layout : Layout) where
  -- What `malloc` makes of the handler's answer.
  abbrev pub again : ℕ → Outcome (Allocator O) (Unit {0}) → Outcome (Allocator O) ℕ
  again rounds (ok _ s) = malloc handler rounds nodes layout s
  again rounds (err s) = err s
  again rounds panic = panic
  again rounds out_of_fuel = out_of_fuel

  malloc-found :
      (s : Allocator O) (rounds : ℕ) (c : Chunk) (t : Talc)
      → get_sufficient_chunk nodes layout s.talc ≡ found (c, t)
      → malloc handler (suc rounds) nodes layout s
        ≡ ok (carve layout c t).0 (record s { talc = (carve layout c t).1 })
  unfolding malloc
  malloc-found s rounds c t e = rw (malloc, e) refl

  malloc-exhausted :
      (s : Allocator O) (rounds : ℕ)
      → get_sufficient_chunk nodes layout s.talc ≡ exhausted
      → malloc handler (suc rounds) nodes layout s ≡ again rounds (handler.handle_oom layout s)
  unfolding malloc
  malloc-exhausted s rounds e = rw (malloc, e) (by_handler (handler.handle_oom layout s))
    where
      by_handler :
          (h : Outcome (Allocator O) (Unit {0}))
          → elim h [
            | ok _ s' ↦ malloc handler rounds nodes layout s'
            | err s' ↦ err s'
            | panic ↦ panic
            | out_of_fuel ↦ out_of_fuel
          ]
            ≡ again rounds h
      by_handler (ok _ s') = refl
      by_handler (err s') = refl
      by_handler panic = refl
      by_handler out_of_fuel = refl

  malloc-no_fuel :
      (s : Allocator O) (rounds : ℕ)
      → get_sufficient_chunk nodes layout s.talc ≡ Search.out_of_fuel
      → malloc handler (suc rounds) nodes layout s ≡ out_of_fuel
  unfolding malloc
  malloc-no_fuel s rounds e = rw (malloc, e) refl

module _ {O : Type 0} (handler : OomHandler O) (nodes : ℕ) (layout : Layout) where
  -- The same as with ErrOnOom where that has an answer, and else what the handler brings.
  abbrev pub Round : Allocator O → ℕ → Outcome (Allocator (Unit {0})) ℕ → Type 0
  Round s rounds (ok p t) =
      malloc handler (suc rounds) nodes layout s ≡ ok p (record s { talc = t.talc })
  Round s rounds (err t) =
      malloc handler (suc rounds) nodes layout s
      ≡ again handler nodes layout rounds (handler.handle_oom layout s)
  Round s rounds panic = Unit
  Round s rounds out_of_fuel = Unit

  pub malloc-Round :
      (s : Allocator O) (rounds : ℕ)
      → Round s rounds (malloc err_on_oom 1 nodes layout (on_err s.talc))
  malloc-Round s rounds = by_search (get_sufficient_chunk nodes layout s.talc) refl
    where
      by_search :
          (r : Search (Chunk × Talc))
          → get_sufficient_chunk nodes layout s.talc ≡ r
          → Round s rounds (malloc err_on_oom 1 nodes layout (on_err s.talc))
      by_search (found (c, t)) e =
          subst (Round s rounds)
            (sym (malloc-found err_on_oom nodes layout (on_err s.talc) 0 c t e))
            (malloc-found handler nodes layout s rounds c t e)
      by_search exhausted e =
          subst (Round s rounds)
            (sym (malloc-exhausted err_on_oom nodes layout (on_err s.talc) 0 e))
            (malloc-exhausted handler nodes layout s rounds e)
      by_search Search.out_of_fuel e =
          subst (Round s rounds) (sym (malloc-no_fuel err_on_oom nodes layout (on_err s.talc) 0 e))
            tt
