-- ===== src/Llist/Insert.antt =====
-- `LlistNode::insert` of talc/src/talc/llist.rs puts a node in front of the list behind a link.
use talc.Base.{ℕ, ◌+◌, ◌≡◌, ◌≢◌, List, [], ◌∷◌, arith, ne→==, sym, subst}
use talc.Base.Lists.{All}
use talc.Mem.{Mem, write}
use talc.Llist.{insert}
use talc.Llist.Links.{
  Links, Outside, OutsideNode, ApartNodes, Separate, Links-write, Outside-of_apart,
}

-- A word that is neither the link, nor in the new node, nor the back link of the old first node
-- keeps its value.
pub insert-elsewhere :
    (m : Mem) (node link successor a : ℕ)
    → a ≢ link
    → OutsideNode a node
    → (successor ≢ 0 → a ≢ successor + 8)
    → insert node link successor m a ≡ m a
unfolding insert write
insert-elsewhere m node link successor a ne out back = ground arith

-- Where memory holds nodes behind a link, not overlapping, inserting a node that is not null and
-- apart from them and the link puts it in front of them.
pub insert-Links :
    (m : Mem) (node link : ℕ) (xs : List ℕ)
    → node ≢ 0
    → OutsideNode link node
    → All (ApartNodes node) xs
    → Outside link xs
    → Separate xs
    → Links m link xs
    → Links (insert node link (m link) m) link (node ∷ xs)
unfolding insert
insert-Links m node link [] pos out apart off sep h =
    rw h (unfold write in (ground arith, pos, ground arith, ground arith))
insert-Links m node link (x ∷ xs) pos out apart off sep (e, some_x, back, rest) =
    let off_node = Outside-of_apart node xs apart.1 in
    let off_x = Outside-of_apart x xs sep.0 in
    let filled = write (write m node x) (node + 8) link in
    let tail : Links (write (write filled link node) (x + 8) node) x xs =
      Links-write _ x xs (x + 8) node (omega arith) off_x.1 (
        Links-write _ x xs link node (omega (arith, off.0)) off.1 (
          Links-write _ x xs (node + 8) link (omega (arith, apart.0)) off_node.1
            (Links-write m x xs node x (omega (arith, apart.0)) off_node.0 rest))) in
    let result : insert node link (m link) m ≡ write (write filled link node) (x + 8) node =
      rw (e, ne→== _ _ some_x) in
    subst (λ m'. Links m' link (node ∷ x ∷ xs)) (sym result)
      (unfold write in
        (
          ground (arith, apart.0, off.0),
          pos,
          ground (arith, apart.0, off.0),
          (ground (arith, apart.0, off.0), some_x, ground (arith, apart.0, off.0), tail),
        ))
