-- ===== src/Talc/Chunks/Place.antt =====
-- The upper half of what `Talc::malloc` of talc/src/talc.rs does with the chunk that it found: the
-- part above the allocation goes back to the bins, and the tag is written and linked.
use talc.Base.{
  ℕ, ◌+◌, ◌-◌, ◌/◌, ◌*◌, ◌%◌, ◌^◌, ◌≤◌, ◌<◌, ◌≡◌, refl, ◌≢◌, ◌⊎◌, inl, inr, Bool, true, false,
  arith, sym, subst, ◌∙◌, eq-or-ne, ne→==, eq→==, ◌==◌, if◌then◌else◌, Bool-cases, max,
}
use talc.PtrUtils.{align_up}
use talc.PtrUtils.Align.{align_up-eq}
use talc.Mem.{write_self, write_ne}
use talc.Tag.{tag_of}
use talc.Counters.{Counters}
use talc.Talc.State.{Talc}
use talc.Talc.Gaps.{register_gap, store, count, is_chunk_size}
use talc.Talc.Gaps.View.{gap, IsRegion}
use talc.Talc.FreeMap.{
  IsFreeMap, IsOff, store-IsFreeMap, count-IsFreeMap, register-IsFreeMap, register_bins,
  register_kept,
}
use talc.Talc.FreeMap.Member.{entry}
use talc.Talc.FreeMap.Merge.{same-IsFreeMap, entry-same, entry-there}
use talc.Talc.Chunks.{used_chunk}
use talc.Talc.Chunks.State.{Tagged}

-- The addresses from `base` to `acme` are whole words off the bins, in no gap of the map.
pub record IsOpen (bins : ℕ) (f : ℕ → ℕ) (base acme : ℕ) : Type 0 where
  pub aligned : base % 8 ≡ 0
  pub whole : acme % 8 ≡ 0
  pub ne_null : base ≢ 0
  pub in_word : acme < 2 ^ 64
  pub off_bins : (acme ≤ bins) ⊎ (bins + 1024 ≤ base)
  pub apart : (x : ℕ) → f x ≢ 0 → (acme ≤ x) ⊎ (x + f x ≤ base)

open_word :
    (bins : ℕ) (f : ℕ → ℕ) (base acme x : ℕ)
    → IsOpen bins f base acme
    → base ≤ x
    → x < acme
    → IsOff bins f x
open_word bins f base acme x o le lt = record {
  off_bins = omega (arith, o.off_bins);
  off_gaps = λ g ne. omega (arith, o.apart g ne);
}

-- What the upper part of `malloc`'s work comes to, for a chunk that begins at `base`.
pub record IsPlaced (t : Talc) (f : ℕ → ℕ) (base acme ptr len : ℕ) (t' : Talc) : Type 0 where
  pub size : ℕ
  pub above : Bool
  pub above_eq :
      ((above ≡ true) × (base + size + 24 ≤ acme)) ⊎ ((above ≡ false) × (base + size ≡ acme))
  pub room : (24 ≤ size) × (size % 8 ≡ 0) × (ptr + len + 8 ≤ base + size)
  pub free : IsFreeMap t' (entry (base + size) (acme - (base + size)) f)
  pub tagged : Tagged t'.mem above base (used_chunk size ptr len)
  pub bins_eq : t'.bins ≡ t.bins
  pub kept : (x : ℕ) → (x < ptr + len) ⊎ (acme ≤ x) → IsOff t.bins f x → t'.mem x ≡ t.mem x

-- The tag and its link.
abbrev pub linked : ℕ → ℕ → ℕ → Talc → Talc
linked tag_ptr tag post t =
    if tag_ptr == post then store tag_ptr tag t else store post tag_ptr (store tag_ptr tag t)

module _ (t : Talc) (f : ℕ → ℕ) (m : IsFreeMap t f) (base acme : ℕ)
    (o : IsOpen t.bins f base acme) where
  -- With the tag's place and the link's in open addresses.
  module _ (tag_ptr tag post : ℕ) (tag_in : (base ≤ tag_ptr) × (tag_ptr < acme))
      (post_in : (base ≤ post) × (post ≤ tag_ptr)) where
    pub linked-IsFreeMap : IsFreeMap (linked tag_ptr tag post t) f
    linked-IsFreeMap =
        let stored =
          store-IsFreeMap t f m tag_ptr tag
            (open_word t.bins f base acme tag_ptr o tag_in.0 tag_in.1) in
        elim (eq-or-ne tag_ptr post) [
          | inl e ↦ rw (eq→== tag_ptr post e) stored
          | inr ne ↦ rw (ne→== tag_ptr post ne) (
              store-IsFreeMap (store tag_ptr tag t) f stored post tag_ptr
                (open_word t.bins f base acme post o post_in.0 (omega (arith, tag_in, post_in))))
        ]

    pub linked_bins : (linked tag_ptr tag post t).bins ≡ t.bins
    linked_bins = elim (eq-or-ne tag_ptr post) [
      | inl e ↦ rw (eq→== tag_ptr post e) refl
      | inr ne ↦ rw (ne→== tag_ptr post ne) refl
    ]

    pub linked_kept :
        (x : ℕ) → (x < post) ⊎ (acme ≤ x) → (linked tag_ptr tag post t).mem x ≡ t.mem x
    linked_kept x out = elim (eq-or-ne tag_ptr post) [
      | inl e ↦
          rw (eq→== tag_ptr post e) (write_ne t.mem tag_ptr tag x (omega (arith, out, tag_in)))
      | inr ne ↦ rw (ne→== tag_ptr post ne) (
          write_ne (store tag_ptr tag t).mem post tag_ptr x (omega (arith, out, tag_in, post_in))
          ∙ write_ne t.mem tag_ptr tag x (omega (arith, out, tag_in)))
    ]

    pub linked_words :
        ((linked tag_ptr tag post t).mem tag_ptr ≡ tag)
        × ((post ≡ tag_ptr) ⊎ ((post < tag_ptr) × ((linked tag_ptr tag post t).mem post ≡ tag_ptr)))
    linked_words = elim (eq-or-ne tag_ptr post) [
      | inl e ↦ rw (eq→== tag_ptr post e) (write_self t.mem tag_ptr tag, inl (sym e))
      | inr ne ↦ rw (ne→== tag_ptr post ne) (
        write_ne (store tag_ptr tag t).mem post tag_ptr tag_ptr ne ∙ write_self t.mem tag_ptr tag,
        inr (omega (arith, post_in, ne), write_self (store tag_ptr tag t).mem post tag_ptr),
      )
    ]

module _ (t : Talc) (f : ℕ → ℕ) (m : IsFreeMap t f) (base acme : ℕ) (o : IsOpen t.bins f base acme)
    (ptr len : ℕ) (at : base ≤ ptr) (fits : ptr + len + 8 ≤ acme) (large : base + 24 ≤ acme)
    (clear : f acme ≡ 0) (account : Counters → Counters) where
  abbrev pub post : ℕ
  post = align_up (ptr + len)

  post_bounds : (base ≤ post) × (post % 8 ≡ 0) × (post + 8 ≤ acme) × (ptr + len ≤ post)
  post_bounds =
      let e : post ≡ (ptr + len + 7) / 8 * 8 = align_up-eq (ptr + len) (omega (arith, o.in_word)) in
      omega (arith, e, o.whole)

  abbrev pub low_tag : ℕ
  low_tag = max (base + 16) post

  abbrev pub above_part : Bool
  above_part = is_chunk_size (low_tag + 8) acme

  abbrev pub tag_at : ℕ
  tag_at = if above_part then low_tag else acme - 8

  abbrev pub raised : Talc
  raised = if above_part then register_gap (low_tag + 8) acme t else t

  -- With a part above that becomes a gap.
  module _ (big : low_tag + 32 ≤ acme) where
    low_whole : (low_tag % 8 ≡ 0) × (base + 16 ≤ low_tag) × (post ≤ low_tag)
    low_whole = omega (arith, post_bounds, o.aligned)

    part_ends : low_tag + 8 + (acme - (low_tag + 8)) ≡ acme
    part_ends = omega arith

    region : IsRegion t.bins (gap (low_tag + 8) (acme - (low_tag + 8)))
    region = record {
      large = omega arith;
      whole = omega (arith, low_whole, o.whole);
      aligned = omega (arith, low_whole);
      ne_null = omega arith;
      in_word = omega (arith, o.in_word);
      off_bins = omega (arith, o.off_bins, low_whole);
    }

    part_fresh :
        (x : ℕ) → f x ≢ 0 → (low_tag + 8 + (acme - (low_tag + 8)) ≤ x) ⊎ (x + f x ≤ low_tag + 8)
    part_fresh x ne = omega (arith, o.apart x ne, low_whole)

    abbrev part_map : ℕ → ℕ
    part_map = entry (low_tag + 8) (acme - (low_tag + 8)) f

    part_free : IsFreeMap (register_gap (low_tag + 8) acme t) part_map
    part_free =
        subst (λ x. IsFreeMap (register_gap (low_tag + 8) x t) part_map) part_ends
          (register-IsFreeMap t f m (low_tag + 8) (acme - (low_tag + 8)) region part_fresh)

    part_bins : (register_gap (low_tag + 8) acme t).bins ≡ t.bins
    part_bins =
        subst (λ x. (register_gap (low_tag + 8) x t).bins ≡ t.bins) part_ends
          (register_bins t f m (low_tag + 8) (acme - (low_tag + 8)) region part_fresh)

    part_kept :
        (x : ℕ)
        → (x < post) ⊎ (acme ≤ x)
        → IsOff t.bins f x
        → (register_gap (low_tag + 8) acme t).mem x ≡ t.mem x
    part_kept x out off =
        subst (λ y. (register_gap (low_tag + 8) y t).mem x ≡ t.mem x) part_ends
          (register_kept t f m (low_tag + 8) (acme - (low_tag + 8)) region part_fresh x off
            (omega (arith, out, part_ends, low_whole)))

    part-IsOpen : IsOpen (register_gap (low_tag + 8) acme t).bins part_map base (low_tag + 8)
    part-IsOpen = record {
      aligned = o.aligned;
      whole = omega (arith, low_whole);
      ne_null = o.ne_null;
      in_word = omega (arith, o.in_word);
      off_bins = omega (arith, part_bins, o.off_bins);
      apart = λ x ne. elim (eq-or-ne x (low_tag + 8)) [
        | inl e ↦ inl (omega arith)
        | inr other ↦
            let same = entry-there (low_tag + 8) (acme - (low_tag + 8)) f x other in
            omega (arith, same, o.apart x (λ z. ne (same ∙ z)))
      ];
    }

    pub part-IsPlaced :
        (p : IsPlaced t f base acme ptr len (
          count account
            (linked low_tag (tag_of base true) post (register_gap (low_tag + 8) acme t))))
        × (p.size ≡ low_tag + 8 - base)
        × (p.above ≡ true)
    part-IsPlaced =
        let r = register_gap (low_tag + 8) acme t in
        let tag = tag_of base true in
        let tag_in : (base ≤ low_tag) × (low_tag < low_tag + 8) = omega (arith, low_whole) in
        let post_in : (base ≤ post) × (post ≤ low_tag) = omega (arith, low_whole, post_bounds) in
        let words =
          linked_words r part_map part_free base (low_tag + 8) part-IsOpen low_tag tag post tag_in
            post_in in
        let ends : low_tag + 8 ≡ base + (low_tag + 8 - base) = omega (arith, low_whole) in
        let last : low_tag ≡ base + (low_tag + 8 - base) - 8 = omega (arith, low_whole) in
        (
          record {
            size = low_tag + 8 - base;
            above = true;
            above_eq = inl (refl, omega (arith, low_whole));
            room = omega (arith, low_whole, o.aligned, post_bounds);
            free =
                count-IsFreeMap (linked low_tag tag post r)
                  (entry (base + (low_tag + 8 - base)) (acme - (base + (low_tag + 8 - base))) f)
                  (subst (λ x. IsFreeMap (linked low_tag tag post r) (entry x (acme - x) f)) ends
                    (linked-IsFreeMap r part_map part_free base (low_tag + 8) part-IsOpen low_tag
                      tag post tag_in post_in))
                  account;
            tagged =
                subst
                  (λ x.
                    ((linked low_tag tag post r).mem x ≡ tag)
                    × ((post ≡ x) ⊎ ((post < x) × ((linked low_tag tag post r).mem post ≡ x))))
                  last words;
            bins_eq =
                linked_bins r part_map part_free base (low_tag + 8) part-IsOpen low_tag tag post
                  tag_in post_in
                ∙ part_bins;
            kept = λ x out off.
                linked_kept r part_map part_free base (low_tag + 8) part-IsOpen low_tag tag post
                  tag_in post_in x (omega (arith, out, post_bounds))
                ∙ part_kept x (omega (arith, out, post_bounds)) off;
          },
          refl,
          refl,
        )

  -- Without one, the chunk takes all of the addresses.
  pub whole-IsPlaced :
      IsPlaced t f base acme ptr len (count account (linked (acme - 8) (tag_of base false) post t))
  whole-IsPlaced =
      let tag = tag_of base false in
      let tag_in : (base ≤ acme - 8) × (acme - 8 < acme) = omega arith in
      let post_in : (base ≤ post) × (post ≤ acme - 8) = omega (arith, post_bounds) in
      let words = linked_words t f m base acme o (acme - 8) tag post tag_in post_in in
      let ends : acme ≡ base + (acme - base) = omega arith in
      record {
        size = acme - base;
        above = false;
        above_eq = inr (refl, sym ends);
        room = omega (arith, o.aligned, o.whole);
        free =
            subst
              (λ x. IsFreeMap (count account (linked (acme - 8) tag post t)) (entry x (acme - x) f))
              ends
              (same-IsFreeMap (count account (linked (acme - 8) tag post t)) f
                (entry acme (acme - acme) f)
                (λ x. entry-same acme (acme - acme) f x (omega (arith, clear)))
                (count-IsFreeMap (linked (acme - 8) tag post t) f
                  (linked-IsFreeMap t f m base acme o (acme - 8) tag post tag_in post_in) account));
        tagged =
            subst
              (λ x.
                ((linked (acme - 8) tag post t).mem (x - 8) ≡ tag)
                × ((post ≡ x - 8)
                    ⊎ ((post < x - 8) × ((linked (acme - 8) tag post t).mem post ≡ x - 8))))
              ends words;
        bins_eq = linked_bins t f m base acme o (acme - 8) tag post tag_in post_in;
        kept = λ x out off.
            linked_kept t f m base acme o (acme - 8) tag post tag_in post_in x
              (omega (arith, out, post_bounds));
      }

  pub linked-IsPlaced :
      IsPlaced t f base acme ptr len
        (count account (linked tag_at (tag_of base above_part) post raised))
  unfolding is_chunk_size
  linked-IsPlaced = elim (Bool-cases above_part) [
    | inl big ↦
        let room : low_tag + 32 ≤ acme = ground (arith, post_bounds, o.in_word) in
        rw big (part-IsPlaced room).0
    | inr small ↦ rw small whole-IsPlaced
  ]
