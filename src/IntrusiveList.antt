-- ===== src/IntrusiveList.antt =====
-- kernel/include/libs/intrusive_list.hpp: circular doubly linked lists through nodes that the objects
-- contain. A node is a number, its address, and the memory is the maps of their two fields.
pub mod Chain
pub mod Insert
pub mod Remove
mod Tests
use noise_v.Base.{ℕ, Bool, not, ◌==◌, if◌then◌else◌}

pub record Nodes : Type 0 where
  pub next : ℕ → ℕ
  pub prev : ℕ → ℕ

abbrev pub put : (ℕ → ℕ) → ℕ → ℕ → ℕ → ℕ
put f i v j = if i == j then v else f j

abbrev pub set_next : Nodes → ℕ → ℕ → Nodes
set_next h n v = record h { next = put h.next n v }

abbrev pub set_prev : Nodes → ℕ → ℕ → Nodes
set_prev h n v = record h { prev = put h.prev n v }

unfoldable pub is_linked : Nodes → ℕ → Bool
is_linked h n = not (h.next n == n)

-- The constructor of a list.
unfoldable pub make : Nodes → ℕ → Nodes
make h root = set_prev (set_next h root root) root root

unfoldable pub empty : Nodes → ℕ → Bool
empty h root = h.next root == root

abbrev pub front : Nodes → ℕ → ℕ
front h root = h.next root

abbrev pub back : Nodes → ℕ → ℕ
back h root = h.prev root

unfoldable pub push_back : Nodes → ℕ → ℕ → Nodes
push_back h root n =
    let prev = h.prev root in
    set_prev (set_next (set_prev (set_next h n root) n prev) prev n) root n

unfoldable pub push_front : Nodes → ℕ → ℕ → Nodes
push_front h root n =
    let next = h.next root in
    set_next (set_prev (set_next (set_prev h n root) n next) next n) root n

unfoldable pub insert : Nodes → ℕ → ℕ → Nodes
insert h pos n =
    let prev = h.prev pos in set_prev (set_next (set_prev (set_next h n pos) n prev) prev n) pos n

unfoldable pub erase : Nodes → ℕ → Nodes
erase h n = let next = h.next n in let prev = h.prev n in set_prev (set_next h prev next) next prev

unfoldable pub pop_front : Nodes → ℕ → Nodes
pop_front h root = let next = h.next (h.next root) in set_prev (set_next h root next) next root

unfoldable pub pop_back : Nodes → ℕ → Nodes
pop_back h root = let prev = h.prev (h.prev root) in set_next (set_prev h root prev) prev root

unfoldable pub remove : Nodes → ℕ → Nodes
remove h n =
    let next = h.next n in
    let prev = h.prev n in
    if h.next n == n
    then h
    else set_prev (set_next (set_prev (set_next h prev next) next prev) n n) n n

-- Before the node `pos` of one list, all of the list at `other`.
unfoldable pub splice : Nodes → ℕ → ℕ → ℕ → Nodes
splice h root pos other =
    let first = h.next other in
    let last = h.prev other in
    let before = h.prev pos in
    let joined =
      set_prev (set_next (set_prev (set_next h before first) first before) last pos) pos last in
    if (other == root)
    then h
    else if empty h other
    then h
    else set_prev (set_next joined other other) other other
