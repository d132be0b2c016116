-- ===== src/Llist/Remove.antt =====
-- `LlistNode::remove` of talc/src/talc/llist.rs unlinks a node, wherever in its list it is.
use talc.Base.{ℕ, ◌+◌, ◌≡◌, ◌≢◌, List, [], ◌∷◌, ◌++◌, arith, ne→==, sym, subst, ◌∙◌}
use talc.Base.Lists.{All, All-mono, All-append}
use talc.Mem.{Mem, write}
use talc.Llist.{remove}
use talc.Llist.Links.{
  Links, Outside, OutsideNode, ApartNodes, Separate, Links-write, Outside-of_apart,
}

-- A word that is neither the link to the node nor the back link of its successor keeps its value.
pub remove-elsewhere :
    (m : Mem) (n a : ℕ) → a ≢ m (n + 8) → (m n ≢ 0 → a ≢ m n + 8) → remove n m a ≡ m a
unfolding remove write
remove-elsewhere m n a ne back = ground arith

module _ (m : Mem) (n : ℕ) (ys : List ℕ) where
  -- The link to a node is the list's, or in a node before it.
  pub link_of :
      (P : ℕ → Type 0) (link : ℕ) (xs : List ℕ)
      → Links m link (xs ++ n ∷ ys)
      → P link
      → All P xs
      → P (m (n + 8))
  link_of P link [] (e, pos, back, rest) p h = subst P (sym back) p
  link_of P link (x ∷ xs) (e, pos, back, rest) p h = link_of P x xs rest h.0 h.1

  -- The successor of a node is none, or the node after it.
  pub successor_of :
      (P : ℕ → Type 0) (link : ℕ) (xs : List ℕ)
      → Links m link (xs ++ n ∷ ys)
      → All P ys
      → m n ≢ 0
      → P (m n)
  successor_of P link [] (e, pos, back, rest) h ne = first ys rest h
    where
      first : (zs : List ℕ) → Links m n zs → All P zs → P (m n)
      first [] z h = absurd (ne z)
      first (z ∷ zs) r h = subst P (sym r.0) h.0
  successor_of P link (x ∷ xs) (e, pos, back, rest) h ne = successor_of P x xs rest h ne

remove_first :
    (m : Mem) (link n : ℕ) (ys : List ℕ)
    → Outside link (n ∷ ys)
    → Separate (n ∷ ys)
    → Links m link (n ∷ ys)
    → Links (remove n m) link ys
unfolding remove
remove_first m link n [] off sep (e, pos, back, rest) = unfold write in ground arith
remove_first m link n (y ∷ ys) off sep (e, pos, back, (e', pos', back', rest)) =
    let tail : Links (write (write m link y) (y + 8) link) y ys =
      Links-write _ y ys (y + 8) link (omega arith) (Outside-of_apart y ys sep.1.0).1
        (Links-write m y ys link y (omega (arith, off.1.0)) off.1.1 rest) in
    let result : remove n m ≡ write (write m link y) (y + 8) link = rw (back, e', ne→== _ _ pos') in
    subst (λ m'. Links m' link (y ∷ ys)) (sym result)
      (unfold write in (ground (arith, off.1.0), pos', ground (arith, off.1.0), tail))

-- Where memory holds nodes behind a link, the nodes and the link not overlapping, removing a node
-- leaves the nodes before and after it behind the link.
pub remove-Links :
    (m : Mem) (link : ℕ) (xs : List ℕ) (n : ℕ) (ys : List ℕ)
    → Outside link (xs ++ n ∷ ys)
    → Separate (xs ++ n ∷ ys)
    → Links m link (xs ++ n ∷ ys)
    → Links (remove n m) link (xs ++ ys)
remove-Links m link [] n ys off sep h = remove_first m link n ys off sep h
remove-Links m link (x ∷ xs) n ys off sep (e, pos, back, rest) = (
  remove-elsewhere m n link link_ne link_ne_back ∙ e,
  pos,
  remove-elsewhere m n (x + 8) back_ne back_ne_back ∙ back,
  remove-Links m x xs n ys (Outside-of_apart x (xs ++ n ∷ ys) sep.0).0 sep.1 rest,
)
  where
    off_parts : Outside link xs × Outside link (n ∷ ys)
    off_parts = All-append (OutsideNode link) xs (n ∷ ys) off.1

    apart_parts : All (ApartNodes x) xs × All (ApartNodes x) (n ∷ ys)
    apart_parts = All-append (ApartNodes x) xs (n ∷ ys) sep.0

    link_ne : link ≢ m (n + 8)
    link_ne =
        link_of m n ys (λ a. link ≢ a) x xs rest (omega (arith, off.0))
          (All-mono xs (λ y o. omega arith) off_parts.0)

    link_ne_back : m n ≢ 0 → link ≢ m n + 8
    link_ne_back =
        successor_of m n ys (λ a. link ≢ a + 8) x xs rest
          (All-mono ys (λ y o. omega arith) off_parts.1.1)

    back_ne : x + 8 ≢ m (n + 8)
    back_ne =
        link_of m n ys (λ a. x + 8 ≢ a) x xs rest (omega arith)
          (All-mono xs (λ y o. omega arith) apart_parts.0)

    back_ne_back : m n ≢ 0 → x + 8 ≢ m n + 8
    back_ne_back =
        successor_of m n ys (λ a. x + 8 ≢ a + 8) x xs rest
          (All-mono ys (λ y o. omega arith) apart_parts.1.1)
