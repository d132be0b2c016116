-- ===== src/Talc/Gaps/Deregister.antt =====
-- `Talc::deregister_gap` of talc/src/talc.rs takes a gap out of its bin.
pub mod Effects
use native.Mathlib.Nat.{add-zero}
use talc.Base.{
  ℕ, zero, suc, ◌+◌, ◌-◌, ◌*◌, ◌%◌, ◌^◌, ◌≤◌, ◌<◌, ◌≡◌, refl, ◌≢◌, ◌⊎◌, inl, inr, Bool, true, false,
  List, [], ◌∷◌, ◌++◌, arith, ◌==◌, if◌then◌else◌, ◌∙◌, ap, sym, subst, eq-or-ne, Bool-cases, ne→==,
  eq→==,
}
use talc.Base.Lists.{All, All-mono, All-map2, All-append}
use talc.Mem.{Mem}
use talc.Counters.{account_deregister_gap}
use talc.Llist.{remove}
use talc.Llist.Links.{Links, Outside, Separate}
use talc.Llist.Remove.{remove-Links, remove-elsewhere, link_of, successor_of}
use talc.Talc.State.{Talc}
use talc.Talc.Avails.{clear_avails}
use talc.Talc.Avails.Flags.{flag, InWords, flag-clear_avails, clear_avails-InWords}
use talc.Talc.Gaps.{deregister_gap}
use talc.Talc.Gaps.Update.{put, by_bin, put-Across}
use talc.Talc.Gaps.View.{
  Gap, bases, is_nil, OutsideGap, ApartGaps, SeparateGaps, IsGap, View, Holds, IsLarge,
  bases-Separate, bases-Outside, SameNode, SameSizes, Links-frame, IsGap-frame, null_iff_nil,
  bases-append, bases-All, is_nil-append, ApartOrSame, pairs, without-All, without-SeparateGaps,
}
use talc.Talc.Gaps.Deregister.Effects.{
  link, result, taken, result_eq, result_mem, result_bins, result_words, taken_flag,
}

module _ (t : Talc) (view : View) (h : Holds t view) (b : ℕ) (in_range : b < 128) (gs : List Gap)
    (g : Gap) (hs : List Gap) (here : view b ≡ gs ++ g ∷ hs) where
  abbrev out : Talc
  out = result t g.base b

  Links-before : Links t.mem (link t g.base b) (bases gs ++ g.base ∷ bases hs)
  Links-before =
      subst (Links t.mem (link t g.base b)) (ap bases here ∙ bases-append gs (g ∷ hs))
        (h.links b in_range)

  gaps_before : All (IsGap t.mem t.bins b) (gs ++ g ∷ hs)
  gaps_before = subst (All (IsGap t.mem t.bins b)) here (h.gaps b in_range)

  separate_before : SeparateGaps (gs ++ g ∷ hs)
  separate_before = subst SeparateGaps here (h.separate b in_range)

  large : All IsLarge (gs ++ g ∷ hs)
  large = All-mono (gs ++ g ∷ hs) (λ x k. k.large) gaps_before

  -- A word that is not the bin's, and in no node of the bin but its own first word or beyond, is
  -- kept: no gap of the bin has its first word or its back link there.
  pub kept :
      (a : ℕ)
      → a ≢ link t g.base b
      → All (λ x. (a ≢ x.base) × (a ≢ x.base + 8)) (gs ++ g ∷ hs)
      → out.mem a ≡ t.mem a
  kept a ne none_here =
      let parts = All-append (λ x. (a ≢ x.base) × (a ≢ x.base + 8)) gs (g ∷ hs) none_here in
      ap (λ m. m a) (result_mem t g.base b)
      ∙ remove-elsewhere t.mem g.base a
          (link_of t.mem g.base (bases hs) (λ l. a ≢ l) (link t g.base b) (bases gs) Links-before ne
            (bases-All (λ l. a ≢ l) gs (All-mono gs (λ x p. p.0) parts.0)))
          (successor_of t.mem g.base (bases hs) (λ l. a ≢ l + 8) (link t g.base b) (bases gs)
            Links-before (bases-All (λ l. a ≢ l + 8) hs (All-mono hs (λ x p. p.1) parts.1.1)))

  Links-after : Links out.mem (link t g.base b) (bases (gs ++ hs))
  Links-after =
      let off : All (OutsideGap (link t g.base b)) (gs ++ g ∷ hs) =
        All-mono (gs ++ g ∷ hs) (λ x k. omega (arith, k.off_bins, k.large, in_range)) gaps_before in
      let e = bases-append gs (g ∷ hs) in
      subst (λ m. Links m (link t g.base b) (bases (gs ++ hs))) (sym (result_mem t g.base b))
        (subst (Links (remove g.base t.mem) (link t g.base b)) (sym (bases-append gs hs)) (
          remove-Links t.mem (link t g.base b) (bases gs) g.base (bases hs)
            (subst (Outside (link t g.base b)) e
              (bases-Outside (link t g.base b) (gs ++ g ∷ hs) large off))
            (subst Separate e (bases-Separate (gs ++ g ∷ hs) large separate_before)) Links-before))

  -- The sizes of the bin's other gaps.
  gaps_after : All (IsGap out.mem t.bins b) (gs ++ hs)
  gaps_after =
      without-All (IsGap out.mem t.bins b) gs g hs
        (All-map2 (gs ++ g ∷ hs) of_gap gaps_before (pairs (gs ++ g ∷ hs) separate_before))
    where
      word :
          (x : Gap)
          → IsGap t.mem t.bins b x
          → All (ApartOrSame x) (gs ++ g ∷ hs)
          → (a : ℕ) → x.base + 16 ≤ a
          → a < x.base + x.size
          → out.mem a ≡ t.mem a
      word x k others a lo hi =
          kept a (omega (arith, k.off_bins, in_range))
            (All-map2 (gs ++ g ∷ hs) (λ y o l. omega (arith, o, l)) others large)

      of_gap :
          (x : Gap)
          → IsGap t.mem t.bins b x
          → All (ApartOrSame x) (gs ++ g ∷ hs)
          → IsGap out.mem t.bins b x
      of_gap x k others =
          IsGap-frame t.mem out.mem t.bins b x
            (
              word x k others (x.base + 16) (omega arith) (omega (arith, k.large)),
              word x k others (x.base + x.size - 8) (omega (arith, k.large))
                  (omega (arith, k.large)),
            )
            k

  module _ (c : ℕ) (lt : c < 128) (ne : c ≢ b) where
    across_here : All (λ x. All (ApartGaps x) (gs ++ g ∷ hs)) (view c)
    across_here =
        subst (λ l. All (λ x. All (ApartGaps x) l) (view c)) here (h.across c b lt in_range ne)

    kept_other :
        (x : Gap)
        → IsGap t.mem t.bins c x
        → All (ApartGaps x) (gs ++ g ∷ hs)
        → (a : ℕ) → x.base ≤ a
        → a < x.base + x.size
        → out.mem a ≡ t.mem a
    kept_other x k others a lo hi =
        kept a (omega (arith, k.off_bins, in_range))
          (All-map2 (gs ++ g ∷ hs) (λ y o l. omega (arith, o, l)) others large)

    Links-other : Links out.mem (t.bins + c * 8) (bases (view c))
    Links-other =
        Links-frame t.mem out.mem (t.bins + c * 8) (view c)
          (kept (t.bins + c * 8) (omega arith)
            (All-mono (gs ++ g ∷ hs) (λ x k. omega (arith, k.off_bins, k.large)) gaps_before))
          (All-map2 (view c)
            (λ x k o. (
              kept_other x k o x.base (omega arith) (omega (arith, k.large)),
              kept_other x k o (x.base + 8) (omega arith) (omega (arith, k.large)),
            ))
            (h.gaps c lt) across_here)
          (h.links c lt)

    gaps_other : All (IsGap out.mem t.bins c) (view c)
    gaps_other =
        All-map2 (view c)
          (λ x k o.
            IsGap-frame t.mem out.mem t.bins c x
              (
                kept_other x k o (x.base + 16) (omega arith) (omega (arith, k.large)),
                kept_other x k o (x.base + x.size - 8) (omega (arith, k.large))
                    (omega (arith, k.large)),
              )
              k)
          (h.gaps c lt) across_here

  emptied : (remove g.base t.mem (link t g.base b) == 0) ≡ is_nil (gs ++ hs)
  emptied = null_iff_nil (remove g.base t.mem) (link t g.base b) (gs ++ hs) (
      subst (λ m. Links m (link t g.base b) (bases (gs ++ hs))) (result_mem t g.base b) Links-after)

  full_before : flag (taken t g.base b) b ≡ 1
  full_before =
      taken_flag t g.base b b
      ∙ h.flags b in_range
      ∙ ap (λ l. if is_nil l then 0 else 1) here
      ∙ ap (λ e. if e then 0 else 1) (is_nil-append gs g hs)

  flag_after :
      (c : ℕ) → flag out c ≡ (if c == b then (if is_nil (gs ++ hs) then 0 else 1) else flag t c)
  flag_after c =
      ap (λ s. flag s c) (result_eq t g.base b)
      ∙ ground (
        arith,
        emptied,
        full_before,
        taken_flag t g.base b c,
        flag-clear_avails (taken t g.base b) b c in_range full_before,
      )

  -- From a state that holds a view, deregistering a gap of a bin leads to a state that holds the
  -- view without that gap, wherever it stands in the bin's list; the bin's flag is cleared exactly
  -- if no gap is left.
  pub deregister_gap-Holds : Holds out (put b (gs ++ hs) view)
  deregister_gap-Holds =
      let each = by_bin b (gs ++ hs) view in
      record {
        words = result_words t g.base b in_range h.words;
        links =
            rw (result_bins t g.base b)
              (each (λ c l. Links out.mem (t.bins + c * 8) (bases l)) Links-after Links-other);
        gaps =
            rw (result_bins t g.base b)
              (each (λ c l. All (IsGap out.mem t.bins c) l) gaps_after gaps_other);
        separate =
            each (λ c l. SeparateGaps l) (without-SeparateGaps gs g hs separate_before)
              (λ c lt ne. h.separate c lt);
        across = λ c d lt lt' ne.
            put-Across b (gs ++ hs) view h.across
              (λ e le ne'.
                without-All (λ x. All (ApartGaps x) (view e)) gs g hs
                  (subst (λ l. All (λ x. All (ApartGaps x) (view e)) l) here
                    (h.across b e in_range le (λ q. ne' (sym q)))))
              c lt d lt' ne;
        flags =
            each (λ c l. flag out c ≡ (if is_nil l then 0 else 1))
              (flag_after b
                ∙ ap (λ e. if e then (if is_nil (gs ++ hs) then 0 else 1) else flag t b)
                    (eq→== b b refl))
              (λ c lt ne.
                flag_after c
                ∙ ap (λ e. if e then (if is_nil (gs ++ hs) then 0 else 1) else flag t c)
                    (ne→== c b ne)
                ∙ h.flags c lt);
      }
