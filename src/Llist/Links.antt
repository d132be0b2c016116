-- ===== src/Llist/Links.antt =====
-- When memory holds a list of nodes behind a link, and which writes leave it alone.
use talc.Base.{ℕ, zero, suc, ◌+◌, ◌≤◌, ◌<◌, ◌≡◌, ◌≢◌, ◌⊎◌, some, List, [], ◌∷◌, arith}
use talc.Base.Lists.{All, length}
use talc.Mem.{Mem, write}
use talc.Llist.{collect}

-- From the word at `link` the nodes `xs` follow one another, each with the address of the link
-- before it.
abbrev pub Links : Mem → ℕ → List ℕ → Type 0
Links m link [] = m link ≡ 0
Links m link (x ∷ xs) = (m link ≡ x) × (x ≢ 0) × (m (x + 8) ≡ link) × Links m x xs

-- The word at `a` is outside the node `x`; two nodes do not overlap.
abbrev pub OutsideNode : ℕ → ℕ → Type 0
OutsideNode a x = (a < x) ⊎ (x + 16 ≤ a)

abbrev pub ApartNodes : ℕ → ℕ → Type 0
ApartNodes x y = (x + 16 ≤ y) ⊎ (y + 16 ≤ x)

abbrev pub Outside : ℕ → List ℕ → Type 0
Outside a xs = All (OutsideNode a) xs

-- The nodes do not overlap.
abbrev pub Separate : List ℕ → Type 0
Separate [] = Unit
Separate (x ∷ xs) = All (ApartNodes x) xs × Separate xs

pub Links-write :
    (m : Mem) (link : ℕ) (xs : List ℕ) (a v : ℕ)
    → a ≢ link
    → Outside a xs
    → Links m link xs
    → Links (write m a v) link xs
unfolding write
Links-write m link [] a v ne out h = ground arith
Links-write m link (x ∷ xs) a v ne out (e, pos, back, rest) =
    (ground arith, pos, ground arith, Links-write m x xs a v (omega (arith, out.0)) out.1 rest)

-- The two words of a node that stands apart are outside.
pub Outside-of_apart :
    (x : ℕ) (xs : List ℕ) → All (ApartNodes x) xs → Outside x xs × Outside (x + 8) xs
Outside-of_apart x [] h = (tt, tt)
Outside-of_apart x (y ∷ xs) h = (
  (omega (arith, h.0), (Outside-of_apart x xs h.1).0),
  (omega (arith, h.0), (Outside-of_apart x xs h.1).1),
)

-- Where memory holds nodes behind a link, iterating from the link, with more fuel than there are
-- nodes, yields the nodes in order.
pub collect-Links :
    (m : Mem) (link fuel : ℕ) (xs : List ℕ)
    → Links m link xs
    → length xs < fuel
    → collect fuel m (m link) ≡ some xs
unfolding collect
collect-Links m link zero xs h enough = absurd (omega arith)
collect-Links m link (suc fuel) [] h enough = rw h
collect-Links m link (suc fuel) (x ∷ xs) (e, pos, back, rest) enough =
    rw e (ground (arith, collect-Links m x fuel xs rest (omega arith)))
