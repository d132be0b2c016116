-- ===== src/Talc/Malloc/Find.antt =====
-- The loops of `Talc::get_sufficient_chunk` of talc/src/talc.rs, over the nodes and over the bins.
use native.Mathlib.Nat.{sub-zero}
use talc.Base.{
  ℕ, zero, suc, ◌+◌, ◌*◌, ◌≤◌, ◌<◌, ◌≡◌, refl, ◌≢◌, inl, inr, Option, none, some, List, [], ◌∷◌,
  ◌++◌, arith, if◌then◌else◌, ◌∙◌, ap, subst, ne→==, le-or-lt, eq-or-ne, Option-cases,
}
use talc.Base.Lists.{All, length}
use talc.Llist.Links.{Links}
use talc.Talc.State.{Talc}
use talc.Talc.Avails.{next_available_bin}
use talc.Talc.Avails.Flags.{flag}
use talc.Talc.Avails.Search.{IsFirst, next_available_bin-IsFirst}
use talc.Talc.Gaps.{deregister_gap}
use talc.Talc.Gaps.View.{Gap, bases, is_nil, IsGap, View, Holds}
use talc.Talc.Malloc.{Search, found, exhausted, out_of_fuel, Chunk, scan_nodes, scan_bins}

-- The chunk is a gap of the list, at which the test places the allocation.
pub record IsIn (fit : ℕ → ℕ → Option ℕ) (gs : List Gap) (c : Chunk) : Type 0 where
  pub before : List Gap
  pub gap : Gap
  pub after : List Gap
  pub split : gs ≡ before ++ gap ∷ after
  pub base : c.base ≡ gap.base
  pub acme : c.acme ≡ gap.base + gap.size
  pub fits : fit gap.base gap.size ≡ some (c.alloc_base)

-- No gap of the list passes the test.
abbrev pub NoneFits : (ℕ → ℕ → Option ℕ) → List Gap → Type 0
NoneFits fit gs = All (λ g. fit g.base g.size ≡ none) gs

module _ (fit : ℕ → ℕ → Option ℕ) where
  abbrev Scanned : List Gap → Search Chunk → Type 0
  Scanned gs (found c) = IsIn fit gs c
  Scanned gs exhausted = NoneFits fit gs
  Scanned gs out_of_fuel = ⊥

  Scanned-cons :
      (g : Gap) (gs : List Gap) (r : Search Chunk)
      → fit g.base g.size ≡ none
      → Scanned gs r
      → Scanned (g ∷ gs) r
  Scanned-cons g gs (found c) e i = record {
    before = g ∷ i.before;
    gap = i.gap;
    after = i.after;
    split = ap (λ l. g ∷ l) i.split;
    base = i.base;
    acme = i.acme;
    fits = i.fits;
  }
  Scanned-cons g gs exhausted e h = (e, h)
  Scanned-cons g gs out_of_fuel e h = h

  scan_hit :
      (t : Talc) (fuel current p : ℕ)
      → current ≢ 0
      → fit current (t.mem (current + 16)) ≡ some p
      → scan_nodes fit (suc fuel) t current
        ≡ found (record { base = current; acme = current + t.mem (current + 16); alloc_base = p })
  unfolding scan_nodes
  scan_hit t fuel current p pos e =
      rw (ne→== current 0 pos, scan_nodes, sub-zero current, e) (simp sub-zero)

  scan_miss :
      (t : Talc) (fuel current : ℕ)
      → current ≢ 0
      → fit current (t.mem (current + 16)) ≡ none
      → scan_nodes fit (suc fuel) t current ≡ scan_nodes fit fuel t (t.mem current)
  unfolding scan_nodes
  scan_miss t fuel current pos e = rw (ne→== current 0 pos, scan_nodes, sub-zero current, e)

  scan_end : (t : Talc) (fuel : ℕ) → scan_nodes fit (suc fuel) t 0 ≡ exhausted
  unfolding scan_nodes
  scan_end t fuel = refl

  scan_nodes-Scanned :
      (t : Talc) (b link fuel : ℕ) (gs : List Gap)
      → Links t.mem link (bases gs)
      → All (IsGap t.mem t.bins b) gs
      → length gs < fuel
      → Scanned gs (scan_nodes fit fuel t (t.mem link))
  scan_nodes-Scanned t b link zero gs h all enough = absurd (omega arith)
  scan_nodes-Scanned t b link (suc fuel) [] h all enough = rw (h, scan_end t fuel) tt
  scan_nodes-Scanned t b link (suc fuel) (g ∷ gs) (e, pos, back, rest) all enough =
      rw e (elim (Option-cases (fit g.base g.size)) [
        | inl nofit ↦ rw (scan_miss t fuel g.base pos (ap (fit g.base) all.0.low_size ∙ nofit)) (
            Scanned-cons g gs (scan_nodes fit fuel t (t.mem g.base)) nofit
              (scan_nodes-Scanned t b g.base fuel gs rest all.1 (omega arith)))
        | inr (p, fits) ↦
            rw (scan_hit t fuel g.base p pos (ap (fit g.base) all.0.low_size ∙ fits)) (record {
              before = [];
              gap = g;
              after = gs;
              split = refl;
              base = refl;
              acme = ap (λ (n : ℕ). g.base + n) all.0.low_size;
              fits = fits;
            })
      ])

  -- The search of the bins from `b` on: a gap of one of them and the state without it, or no gap
  -- of any of them fits.
  pub record IsTaken (t : Talc) (view : View) (b : ℕ) (c : Chunk) (t' : Talc) : Type 0 where
    pub bin : ℕ
    pub from : b ≤ bin
    pub in_range : bin < 128
    pub is_in : IsIn fit (view bin) c
    pub taken : t' ≡ deregister_gap c.base bin t

  abbrev pub Found : Talc → View → ℕ → Search (Chunk × Talc) → Type 0
  Found t view b (found (c, t')) = IsTaken t view b c t'
  Found t view b exhausted = (c : ℕ) → b ≤ c → c < 128 → NoneFits fit (view c)
  Found t view b out_of_fuel = ⊥

  none_of_flag :
      (gs : List Gap) {n : ℕ} → n ≡ (if is_nil gs then 0 else 1) → n ≡ 0 → NoneFits fit gs
  none_of_flag [] e z = tt
  none_of_flag (g ∷ gs) e z = absurd (omega arith)

  -- What is found from a later bin on serves from an earlier one on, if no gap between fits.
  pub Found-earlier :
      (t : Talc) (view : View) (b next : ℕ) (r : Search (Chunk × Talc))
      → b ≤ next
      → ((c : ℕ) → b ≤ c → c < next → NoneFits fit (view c))
      → Found t view next r
      → Found t view b r
  Found-earlier t view b next (found (c, t')) le gone f = record {
    bin = f.bin;
    from = omega (arith, f.from);
    in_range = f.in_range;
    is_in = f.is_in;
    taken = f.taken;
  }
  Found-earlier t view b next exhausted le gone f =
      λ c lo hi. elim (le-or-lt next c) [ inl late ↦ f c late hi | inr early ↦ gone c lo early ]
  Found-earlier t view b next out_of_fuel le gone f = f

  module _ (t : Talc) (view : View) (h : Holds t view) (nodes : ℕ)
      (enough : (c : ℕ) → c < 128 → length (view c) < nodes) where
    pub no_gap : (c : ℕ) → c < 128 → flag t c ≡ 0 → NoneFits fit (view c)
    no_gap c lt z = none_of_flag (view c) (h.flags c lt) z

    module _ (bins b : ℕ) (lt : b < 128)
        (rest : (next : ℕ)
          → b < next
          → next < 128
          → Found t view next (scan_bins fit nodes bins t next)) where
      after_next :
          (o : Option ℕ)
          → NoneFits fit (view b)
          → IsFirst t (b + 1) o
          → Found t view b
              (elim o [ none ↦ exhausted | some next ↦ scan_bins fit nodes bins t next ])
      after_next none here first = λ c lo hi. elim (eq-or-ne b c) [
        | inl e ↦ subst (λ d. NoneFits fit (view d)) e here
        | inr ne ↦ no_gap c hi (first c (omega arith) hi)
      ]
      after_next (some next) here (le, hi', one, zeros) =
          Found-earlier t view b next (scan_bins fit nodes bins t next) (omega arith)
            (λ c lo hi. elim (eq-or-ne b c) [
              | inl e ↦ subst (λ d. NoneFits fit (view d)) e here
              | inr ne ↦ no_gap c (omega arith) (zeros c (omega arith) hi)
            ])
            (rest next (omega arith) hi')

      after_scan :
          (r : Search Chunk)
          → Scanned (view b) r
          → Found t view b (elim r [
            | found c ↦ found (c, deregister_gap c.base b t)
            | exhausted ↦ elim (next_available_bin (b + 1) t) [
              | none ↦ exhausted
              | some next ↦ scan_bins fit nodes bins t next
            ]
            | out_of_fuel ↦ out_of_fuel
          ])
      after_scan (found c) i = record {
        bin = b;
        from = omega arith;
        in_range = lt;
        is_in = i;
        taken = refl;
      }
      after_scan exhausted i =
          after_next (next_available_bin (b + 1) t) i (next_available_bin-IsFirst t h.words (b + 1))
      after_scan out_of_fuel i = i

    pub scan_bins-Found :
        (bins b : ℕ) → b < 128 → 128 ≤ bins + b → Found t view b (scan_bins fit nodes bins t b)
    unfolding scan_bins
    scan_bins-Found zero b lt fuel = absurd (omega arith)
    scan_bins-Found (suc bins) b lt fuel =
        after_scan bins b lt (λ next lo hi. scan_bins-Found bins next hi (omega arith))
          (scan_nodes fit nodes t (t.mem (t.bins + b * 8)))
          (scan_nodes-Scanned t b (t.bins + b * 8) nodes (view b) (h.links b lt) (h.gaps b lt)
            (enough b lt))
