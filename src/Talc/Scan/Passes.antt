-- ===== src/Talc/Scan/Passes.antt =====
-- Where the debug check `Talc::scan_for_errors` of talc/src/talc.rs passes.
use native.Mathlib.Nat.{sub-zero, one-le-pow}
use talc.Base.{
  ℕ, zero, suc, ◌+◌, ◌-◌, ◌*◌, ◌/◌, ◌%◌, ◌^◌, ◌≤◌, ◌<◌, ◌≡◌, refl, ◌≢◌, ◌⊎◌, inl, inr, Bool, true,
  false, not, bit_and, List, [], ◌∷◌, ◌++◌, arith, ap, sym, ◌∙◌, ltb, ◌==◌, if◌then◌else◌, eq→==,
  ne→==, Bool-cases, eq-or-ne,
}
use talc.Base.Bits.{bit, bit-lt, bit-shift, bit_and-shifted, bit_and-one}
use talc.Base.Lists.{All, All-map2, append-All, All-of, length}
use talc.Mem.{Mem}
use talc.Llist.Links.{Links}
use talc.Tag
use talc.Span
use talc.Span.{Span}
use talc.Talc.State.{Talc}
use talc.Talc.Avails.Flags.{flag}
use talc.Talc.Outcome.{Outcome, ok}
use talc.Talc.Heaps.{assert}
use talc.Talc.Gaps.View.{Gap, bases, is_nil, ApartGaps, SeparateGaps, IsGap, View, Holds}
use talc.Talc.Scan.{is_available, none_overlap, scan_node, scan_bin, scan_all, scan_for_errors}

bit_and-pow : (n b : ℕ) → bit_and n (2 ^ b) ≡ bit n b * 2 ^ b
unfolding bit
bit_and-pow n b =
    let e : 1 * 2 ^ b ≡ 2 ^ b = omega arith in
    let z : b + 0 ≡ b = omega arith in
    let digit : n / 2 ^ b % 2 ≡ bit n b = bit-shift n b 0 ∙ ap (bit n) z in
    ap (bit_and n) (sym e)
    ∙ bit_and-shifted b n 1
    ∙ ap (λ (d : ℕ). d * 2 ^ b) (bit_and-one (n / 2 ^ b) ∙ digit)

mask_test : (n b : ℕ) → not (bit_and n (2 ^ b) == 0) ≡ not (bit n b == 0)
mask_test n b = elim (eq-or-ne (bit n b) 0) [
  | inl z ↦
      let e : bit_and n (2 ^ b) ≡ 0 = omega (arith, bit_and-pow n b, ap (λ (d : ℕ). d * 2 ^ b) z) in
      rw (eq→== (bit_and n (2 ^ b)) 0 e, eq→== (bit n b) 0 z)
  | inr ne ↦
      let one : bit n b ≡ 1 = omega (arith, ne, bit-lt n b) in
      let e : bit_and n (2 ^ b) ≡ 1 * 2 ^ b = bit_and-pow n b ∙ ap (λ (d : ℕ). d * 2 ^ b) one in
      let pos : bit_and n (2 ^ b) ≢ 0 = omega (arith, e, one-le-pow b 2 (omega arith)) in
      rw (ne→== (bit_and n (2 ^ b)) 0 pos, ne→== (bit n b) 0 ne)
]

is_available-flag : (t : Talc) (b : ℕ) → is_available t b ≡ not (flag t b == 0)
unfolding is_available flag
is_available-flag t b = elim (Bool-cases (ltb b 64)) [
  | inl low ↦ rw low (mask_test t.availability_low b)
  | inr high ↦ rw high (mask_test t.availability_high (b - 64))
]

-- Below the gap is a tag that says that a gap follows.
abbrev pub TagBelow : Mem → Gap → Type 0
TagBelow m g =
    (Tag.is_allocated (m (g.base - 8)) ≡ true) × (Tag.is_above_free (m (g.base - 8)) ≡ true)

abbrev span_of : Gap → Span
span_of g = Span.new g.base (g.base + g.size)

-- The span is apart from the gap.
abbrev IsOffGap : Gap → Span → Type 0
IsOffGap g s = (g.base + g.size ≤ s.base) ⊎ (s.acme ≤ g.base)

off_gap-overlaps : (g : Gap) (s : Span) → IsOffGap g s → Span.overlaps (span_of g) s ≡ false
unfolding Span.overlaps
off_gap-overlaps g s off = ground (arith, off)

off-none_overlap :
    (g : Gap) (vec : List Span) → All (IsOffGap g) vec → none_overlap (span_of g) vec ≡ true
off-none_overlap g [] off = refl
off-none_overlap g (other ∷ vec) off =
    rw (off_gap-overlaps g other off.0, off-none_overlap g vec off.1) refl

scan_node-gap :
    (t : Talc) (b : ℕ) (g : Gap) (vec : List Span)
    → IsGap t.mem t.bins b g
    → flag t b ≡ 1
    → TagBelow t.mem g
    → All (IsOffGap g) vec
    → scan_node t b vec g.base ≡ ok (vec ++ span_of g ∷ []) t
unfolding scan_node
scan_node-gap t b g vec i on tag off =
    rw
      (
        is_available-flag t b,
        on,
        sub-zero g.base,
        i.low_size,
        i.high_size,
        tag.0,
        tag.1,
        off-none_overlap g vec off,
        eq→== g.size g.size refl,
      )
      refl

-- Whether there was any node, after the loop over these gaps.
abbrev some_seen : Bool → List Gap → Bool
some_seen any [] = any
some_seen any (g ∷ gs) = true

some_seen-true : (gs : List Gap) → some_seen true gs ≡ true
some_seen-true [] = refl
some_seen-true (g ∷ gs) = refl

-- The loop over the gaps passes, and the spans that it has seen are those before and the gaps'.
record Scanned (t : Talc) (any : Bool) (vec : List Span) (gs : List Gap)
    (r : Outcome Talc (Bool × List Span)) : Type 0 where
  pub seen : List Span
  pub result : r ≡ ok (some_seen any gs, seen) t
  pub off : (h : Gap) → All (IsOffGap h) vec → All (ApartGaps h) gs → All (IsOffGap h) seen

module _ (t : Talc) (b : ℕ) where
  scan_end :
      (fuel : ℕ) (any : Bool) (vec : List Span)
      → scan_bin (suc fuel) t b any vec 0 ≡ ok (any, vec) t
  unfolding scan_bin
  scan_end fuel any vec = refl

  scan_next :
      (fuel : ℕ) (any : Bool) (vec seen : List Span) (current : ℕ)
      → current ≢ 0
      → scan_node t b vec current ≡ ok seen t
      → scan_bin (suc fuel) t b any vec current ≡ scan_bin fuel t b true seen (t.mem current)
  unfolding scan_bin
  scan_next fuel any vec seen current pos e = rw (ne→== current 0 pos, scan_bin, e) refl

  scan_bin-Scanned :
      (link fuel : ℕ) (any : Bool) (vec : List Span) (gs : List Gap)
      → Links t.mem link (bases gs)
      → All (IsGap t.mem t.bins b) gs
      → All (λ g. flag t b ≡ 1) gs
      → All (TagBelow t.mem) gs
      → SeparateGaps gs
      → All (λ g. All (IsOffGap g) vec) gs
      → length gs < fuel
      → Scanned t any vec gs (scan_bin fuel t b any vec (t.mem link))
  scan_bin-Scanned link zero any vec gs links all on tags sep off enough = absurd (omega arith)
  scan_bin-Scanned link (suc fuel) any vec [] links all on tags sep off enough = record {
    seen = vec;
    result = rw (links, scan_end fuel any vec) refl;
    off = λ h o _. o;
  }
  scan_bin-Scanned link (suc fuel) any vec (g ∷ gs) (e, pos, back, rest) all on tags sep off
        enough =
      let seen = vec ++ span_of g ∷ [] in
      let here = scan_node-gap t b g vec all.0 on.0 tags.0 off.0 in
      let later =
        scan_bin-Scanned g.base fuel true seen gs rest all.1 on.1 tags.1 sep.1
          (All-map2 gs
            (λ h o a. append-All (IsOffGap h) vec (span_of g ∷ []) o (omega (arith, a), tt)) off.1
            sep.0)
          (omega arith) in
      record {
        seen = later.seen;
        result =
            ap (scan_bin (suc fuel) t b any vec) e
            ∙ scan_next fuel any vec seen g.base pos here
            ∙ later.result
            ∙ ap (λ (x : Bool). ok (x, later.seen) t) (some_seen-true gs);
        off = λ h o a.
            later.off h (append-All (IsOffGap h) vec (span_of g ∷ []) o (omega (arith, a.0), tt))
              a.1;
      }

-- Each gap's bin has its flag set, by what a view says of the flags.
flags_on : {n : ℕ} (gs : List Gap) → n ≡ (if is_nil gs then 0 else 1) → All (λ g. n ≡ 1) gs
flags_on [] e = tt
flags_on (g ∷ gs) e = All-of (λ h. _) (g ∷ gs) (λ h. e)

any_or_clear :
    (t : Talc) (b : ℕ) (gs : List Gap) (r : Outcome Talc (Unit {0}))
    → flag t b ≡ (if is_nil gs then 0 else 1)
    → (if some_seen false gs then r else assert (not (is_available t b)) r) ≡ r
any_or_clear t b [] r e = rw (is_available-flag t b, e) refl
any_or_clear t b (g ∷ gs) r e = refl

module _ (t : Talc) (view : View) (h : Holds t view) (nodes : ℕ)
    (enough : (c : ℕ) → c < 128 → length (view c) < nodes)
    (tags : (c : ℕ) → c < 128 → All (TagBelow t.mem) (view c)) where
  scan_all-ok :
      (left b : ℕ) (vec : List Span)
      → left + b ≡ 128
      → ((c : ℕ) → b ≤ c → c < 128 → All (λ g. All (IsOffGap g) vec) (view c))
      → scan_all left nodes t b vec ≡ ok tt t
  unfolding scan_all
  scan_all-ok zero b vec sum off = refl
  scan_all-ok (suc left) b vec sum off =
      let lt : b < 128 = omega (arith, sum) in
      let now =
        scan_bin-Scanned t b (t.bins + b * 8) nodes false vec (view b) (h.links b lt) (h.gaps b lt)
          (flags_on (view b) (h.flags b lt)) (tags b lt) (h.separate b lt) (off b (omega arith) lt)
          (enough b lt) in
      let later = scan_all-ok left (b + 1) now.seen (omega (arith, sum)) (λ c le hi.
        All-map2 (view c) (λ g o a. now.off g o a) (off c (omega arith) hi)
          (h.across c b hi lt (omega arith))) in
      rw (scan_all, now.result, later) (any_or_clear t b (view b) (ok tt t) (h.flags b lt))

  pub scan_for_errors-ok : t.bins ≢ 0 → scan_for_errors nodes t ≡ ok tt t
  unfolding scan_for_errors
  scan_for_errors-ok placed =
      rw (ne→== t.bins 0 placed)
        (scan_all-ok 128 0 [] refl (λ c _ hi. All-of (λ g. All (IsOffGap g) []) (view c) (λ g. tt)))
