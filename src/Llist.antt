-- ===== src/Llist.antt =====
-- talc/src/talc/llist.rs. A node is two words: `next` at its address, and the address of the link
-- that points to it, `next_of_prev`, in the word after. `None` is the null address.
pub mod Links
pub mod Insert
pub mod Remove
use talc.Base.{ℕ, zero, suc, ◌+◌, Option, none, some, List, [], ◌∷◌, ◌==◌, if◌then◌else◌}
use talc.Mem.{Mem, write}

-- The two fields of the node at an address.
abbrev pub next : Mem → ℕ → ℕ
next m node = m node

abbrev pub next_of_prev : Mem → ℕ → ℕ
next_of_prev m node = m (node + 8)

-- `next` is the first field of a node.
abbrev pub next_ptr : ℕ → ℕ
next_ptr node = node

unfoldable pub insert : (node link successor : ℕ) → Mem → Mem
insert node link successor m =
    let filled = write (write m node successor) (node + 8) link in
    let linked = write filled link node in
    if successor == 0 then linked else write linked (successor + 8) (next_ptr node)

unfoldable pub remove : (node : ℕ) → Mem → Mem
remove node m =
    let successor = next m node in
    let link = next_of_prev m node in
    let unlinked = write m link successor in
    if successor == 0 then unlinked else write unlinked (successor + 8) link

-- `IterMut` holds the node that comes next; `step` is its `next`.
unfoldable pub step : Mem → ℕ → Option (ℕ × ℕ)
step m current = if current == 0 then none else some (current, next m current)

-- All that an iteration from a node yields; `none` means that the fuel ran out.
unfoldable pub collect : ℕ → Mem → ℕ → Option (List ℕ)
unfolding step
collect zero m current = none
collect (suc fuel) m current = elim (step m current) [
  | none ↦ some []
  | some (node, rest) ↦ elim (collect fuel m rest) [
    | none ↦ none
    | some nodes ↦ some (node ∷ nodes)
  ]
]
