-- ===== src/Talc/Gaps/View.antt =====
-- The abstract view of the bins of talc/src/talc.rs: for each bin the list of its gaps, and when
-- the allocator's memory and flags hold that view.
use talc.Base.{
  ℕ, ◌+◌, ◌-◌, ◌*◌, ◌%◌, ◌^◌, ◌≤◌, ◌<◌, ◌≡◌, refl, ◌≢◌, ◌⊎◌, inl, inr, Bool, true, false, List, [],
  ◌∷◌, ◌++◌, ap, arith, ◌==◌, if◌then◌else◌, ◌∙◌, sym, subst,
}
use talc.Base.Lists.{All, All-mono, All-map2, All-append, append-All}
use talc.Mem.{Mem}
use talc.Llist.Links.{Links, Outside, ApartNodes, Separate}
use talc.Talc.State.{Talc}
use talc.Talc.SizeClass.{bin_of_size}
use talc.Talc.Avails.Flags.{flag, InWords}

pub record Gap : Type 0 where
  pub base : ℕ
  pub size : ℕ

abbrev pub gap : ℕ → ℕ → Gap
gap b n = record { base = b; size = n }

abbrev pub bases : List Gap → List ℕ
bases [] = []
bases (g ∷ gs) = g.base ∷ bases gs

abbrev pub is_nil : List Gap → Bool
is_nil [] = true
is_nil (g ∷ gs) = false

-- The word at `a` is outside the gap; two gaps do not overlap.
abbrev pub OutsideGap : ℕ → Gap → Type 0
OutsideGap a g = (a < g.base) ⊎ (g.base + g.size ≤ a)

abbrev pub ApartGaps : Gap → Gap → Type 0
ApartGaps g h = (g.base + g.size ≤ h.base) ⊎ (h.base + h.size ≤ g.base)

abbrev pub SeparateGaps : List Gap → Type 0
SeparateGaps [] = Unit
SeparateGaps (g ∷ gs) = All (ApartGaps g) gs × SeparateGaps gs

-- A region that can be a gap while the array of bins is at `bins`: whole words, not null, large
-- enough for a node and a size, and outside the array.
pub record IsRegion (bins : ℕ) (g : Gap) : Type 0 where
  pub large : 24 ≤ g.size
  pub whole : g.size % 8 ≡ 0
  pub aligned : g.base % 8 ≡ 0
  pub ne_null : g.base ≢ 0
  pub in_word : g.base + g.size < 2 ^ 64
  pub off_bins : (g.base + g.size ≤ bins) ⊎ (bins + 1024 ≤ g.base)

-- A gap of bin `b`: its size stands at both ends, and is of the bin's class.
pub record IsGap (m : Mem) (bins b : ℕ) (g : Gap) : Type 0 where
  pub region : IsRegion bins g
  pub open region use *
  pub low_size : m (g.base + 16) ≡ g.size
  pub high_size : m (g.base + g.size - 8) ≡ g.size
  pub class : bin_of_size g.size ≡ b

abbrev pub View : Type 0
View = ℕ → List Gap

-- The allocator's bins, flags and memory hold the view.
pub record Holds (t : Talc) (view : View) : Type 0 where
  pub words : InWords t
  pub links : (b : ℕ) → b < 128 → Links t.mem (t.bins + b * 8) (bases (view b))
  pub gaps : (b : ℕ) → b < 128 → All (IsGap t.mem t.bins b) (view b)
  pub separate : (b : ℕ) → b < 128 → SeparateGaps (view b)
  pub across :
      (b c : ℕ) → b < 128 → c < 128 → b ≢ c → All (λ g. All (ApartGaps g) (view c)) (view b)
  pub flags : (b : ℕ) → b < 128 → flag t b ≡ (if is_nil (view b) then 0 else 1)

abbrev pub IsLarge : Gap → Type 0
IsLarge g = 24 ≤ g.size

pub bases-apart :
    (g : Gap) (gs : List Gap)
    → IsLarge g
    → All IsLarge gs
    → All (ApartGaps g) gs
    → All (ApartNodes g.base) (bases gs)
bases-apart g [] large all apart = tt
bases-apart g (h ∷ gs) large all apart =
    (omega (arith, all.0, apart.0), bases-apart g gs large all.1 apart.1)

pub bases-Separate : (gs : List Gap) → All IsLarge gs → SeparateGaps gs → Separate (bases gs)
bases-Separate [] all sep = tt
bases-Separate (g ∷ gs) all sep =
    (bases-apart g gs all.0 all.1 sep.0, bases-Separate gs all.1 sep.1)

pub bases-Outside :
    (a : ℕ) (gs : List Gap) → All IsLarge gs → All (OutsideGap a) gs → Outside a (bases gs)
bases-Outside a [] all out = tt
bases-Outside a (g ∷ gs) all out = (omega (arith, all.0, out.0), bases-Outside a gs all.1 out.1)

-- Two memories agree on the words of a gap that its bin uses: the node and the two sizes.
abbrev pub SameNode : Mem → Mem → Gap → Type 0
SameNode m m' g = (m' g.base ≡ m g.base) × (m' (g.base + 8) ≡ m (g.base + 8))

abbrev pub SameSizes : Mem → Mem → Gap → Type 0
SameSizes m m' g =
    (m' (g.base + 16) ≡ m (g.base + 16)) × (m' (g.base + g.size - 8) ≡ m (g.base + g.size - 8))

pub Links-frame :
    (m m' : Mem) (link : ℕ) (gs : List Gap)
    → m' link ≡ m link
    → All (SameNode m m') gs
    → Links m link (bases gs)
    → Links m' link (bases gs)
Links-frame m m' link [] e same h = e ∙ h
Links-frame m m' link (g ∷ gs) e same (first, pos, back, rest) =
    (e ∙ first, pos, same.0.1 ∙ back, Links-frame m m' g.base gs same.0.0 same.1 rest)

pub IsGap-frame :
    (m m' : Mem) (bins b : ℕ) (g : Gap) → SameSizes m m' g → IsGap m bins b g → IsGap m' bins b g
IsGap-frame m m' bins b g same h = record {
  region = h.region;
  low_size = same.0 ∙ h.low_size;
  high_size = same.1 ∙ h.high_size;
  class = h.class;
}

-- The first word of a bin is null exactly where the bin is empty.
pub null_iff_nil :
    (m : Mem) (link : ℕ) (gs : List Gap) → Links m link (bases gs) → (m link == 0) ≡ is_nil gs
null_iff_nil m link [] h = ground arith
null_iff_nil m link (g ∷ gs) h = ground (arith, h.0, h.1)

-- What holds of all gaps of a bin holds of the first, which the bin's word points to.
pub first_gap :
    (P : ℕ → Type 0) (m : Mem) (link : ℕ) (gs : List Gap)
    → Links m link (bases gs)
    → All (λ g. P g.base) gs
    → m link ≢ 0
    → P (m link)
first_gap P m link [] h all ne = absurd (ne h)
first_gap P m link (g ∷ gs) h all ne = subst P (sym h.0) all.0

pub bases-append : (gs hs : List Gap) → bases (gs ++ hs) ≡ bases gs ++ bases hs
bases-append [] hs = refl
bases-append (g ∷ gs) hs = ap (λ l. g.base ∷ l) (bases-append gs hs)

pub bases-All : (P : ℕ → Type 0) (gs : List Gap) → All (λ g. P g.base) gs → All P (bases gs)
bases-All P [] h = tt
bases-All P (g ∷ gs) h = (h.0, bases-All P gs h.1)

pub is_nil-append : (gs : List Gap) (g : Gap) (hs : List Gap) → is_nil (gs ++ g ∷ hs) ≡ false
is_nil-append [] g hs = refl
is_nil-append (x ∷ gs) g hs = refl

-- Two gaps of one list are apart, or the same.
abbrev pub ApartOrSame : Gap → Gap → Type 0
ApartOrSame g h = ApartGaps g h ⊎ (g.base ≡ h.base)

pub pairs : (gs : List Gap) → SeparateGaps gs → All (λ g. All (ApartOrSame g) gs) gs
pairs [] sep = tt
pairs (g ∷ gs) sep = (
  (inr refl, All-mono gs (λ h a. inl a) sep.0),
  All-map2 gs (λ h a all. (inl (omega (arith, a)), all)) sep.0 (pairs gs sep.1),
)

-- Without the gap in the middle.
pub without-All :
    (P : Gap → Type 0) (gs : List Gap) (g : Gap) (hs : List Gap)
    → All P (gs ++ g ∷ hs)
    → All P (gs ++ hs)
without-All P gs g hs h =
    let parts = All-append P gs (g ∷ hs) h in append-All P gs hs parts.0 parts.1.1

pub without-SeparateGaps :
    (gs : List Gap) (g : Gap) (hs : List Gap)
    → SeparateGaps (gs ++ g ∷ hs)
    → SeparateGaps (gs ++ hs)
without-SeparateGaps [] g hs sep = sep.1
without-SeparateGaps (x ∷ gs) g hs sep =
    (without-All (ApartGaps x) gs g hs sep.0, without-SeparateGaps gs g hs sep.1)
