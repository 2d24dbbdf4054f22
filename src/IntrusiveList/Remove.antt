-- ===== src/IntrusiveList/Remove.antt =====
-- The removals of kernel/include/libs/intrusive_list.hpp.
use mathlib.Core.List.{append-nil}
use noise_v.Base.{
  ℕ, ◌≡◌, ◌≢◌, ap, ap₂, sym, subst, ◌∙◌, true, false, List, [], ◌∷◌, ◌++◌, arith, ◌==◌, All,
  Distinct,
}
use noise_v.IntrusiveList.{Nodes, set_next, set_prev, is_linked, erase, pop_front, pop_back, remove}
use noise_v.IntrusiveList.Chain.{
  Chain, IsList, first, last, All-append_left, first-All, last-All, Chain-at, Chain-frame,
}

-- The two writes that close the gap between `p` and `q`.
close : Nodes → ℕ → ℕ → Nodes
close h p q = set_prev (set_next h p q) q p

close_here : (h : Nodes) (p q : ℕ) → ((close h p q).next p ≡ q) × ((close h p q).prev q ≡ p)
unfolding close
close_here h p q = ground arith

next-close : (h : Nodes) (p q x : ℕ) → x ≢ p → (close h p q).next x ≡ h.next x
unfolding close
next-close h p q x e = ground arith

prev-close : (h : Nodes) (p q x : ℕ) → x ≢ q → (close h p q).prev x ≡ h.prev x
unfolding close
prev-close h p q x e = ground arith

frame-All :
    (h : Nodes) (p q : ℕ) (ys : List ℕ)
    → All (λ y. y ≢ p) ys
    → All (λ y. y ≢ q) ys
    → All (λ y. ((close h p q).next y ≡ h.next y) × ((close h p q).prev y ≡ h.prev y)) ys
frame-All h p q [] f g = tt
frame-All h p q (y ∷ ys) f g =
    ((next-close h p q y f.0, prev-close h p q y g.0), frame-All h p q ys f.1 g.1)

All-drop : (P : ℕ → Type 0) (n : ℕ) (xs ys : List ℕ) → All P (xs ++ n ∷ ys) → P n × All P (xs ++ ys)
All-drop P n [] ys f = (f.0, f.1)
All-drop P n (x ∷ xs) ys f = let r = All-drop P n xs ys f.1 in (r.0, (f.0, r.1))

Distinct-drop : (n : ℕ) (xs ys : List ℕ) → Distinct (xs ++ n ∷ ys) → Distinct (xs ++ ys)
Distinct-drop n [] ys d = d.1
Distinct-drop n (x ∷ xs) ys d = ((All-drop (λ y. y ≢ x) n xs ys d.0).1, Distinct-drop n xs ys d.1)

-- A node out of the middle of a chain.
close-Chain :
    (h : Nodes) (n a : ℕ) (xs ys : List ℕ) (b : ℕ)
    → Chain h a (xs ++ n ∷ ys) b
    → Distinct (a ∷ xs ++ n ∷ ys)
    → All (λ y. y ≢ b) (xs ++ n ∷ ys)
    → Chain (close h (last a xs) (first ys b)) a (xs ++ ys) b
close-Chain h n a [] [] b c d eb = close_here h a b
close-Chain h n a [] (y ∷ ys) b c d eb =
    let here = close_here h a y in
    (
      here.0,
      here.1,
      Chain-frame h (close h a y) y ys b c.2.2 (next-close h a y y d.0.1.0)
          (prev-close h a y b (λ e. eb.1.0 (sym e))) (frame-All h a y ys d.0.1.1 d.1.1.0),
    )
close-Chain h n a (x ∷ xs) ys b c d eb =
    let p = last x xs in
    let q = first ys b in
    let rest = All-drop (λ y. y ≢ a) n xs ys d.0.1 in
    let others = All-drop (λ y. y ≢ x) n xs ys d.1.0 in
    let not_last : p ≢ a =
      last-All (λ y. y ≢ a) x xs d.0.0 (All-append_left (λ y. y ≢ a) xs ys rest.1) in
    let not_first : q ≢ x = first-All (λ y. y ≢ x) xs ys b others.1 (λ e. eb.0 (sym e)) in
    (
      next-close h p q a (λ e. not_last (sym e)) ∙ c.0,
      prev-close h p q x (λ e. not_first (sym e)) ∙ c.1,
      close-Chain h n x xs ys b c.2 d.1 eb.1,
    )

Chain-after :
    (h : Nodes) (a n : ℕ) (xs ys : List ℕ) (b : ℕ) → Chain h a (xs ++ n ∷ ys) b → Chain h n ys b
Chain-after h a n [] ys b c = c.2
Chain-after h a n (x ∷ xs) ys b c = Chain-after h x n xs ys b c.2

Distinct-others : (n : ℕ) (xs ys : List ℕ) → Distinct (xs ++ n ∷ ys) → All (λ y. y ≢ n) (xs ++ ys)
Distinct-others n [] ys d = d.0
Distinct-others n (x ∷ xs) ys d =
    ((λ e. (All-drop (λ y. y ≢ x) n xs ys d.0).0 (sym e)), Distinct-others n xs ys d.1)

-- Closing the gap around a node of a list, and the fields of the node.
record Closed (h : Nodes) (root n : ℕ) (xs ys : List ℕ) : Type 0 where
  list : IsList (close h (last root xs) (first ys root)) root (xs ++ ys)
  before : h.prev n ≡ last root xs
  after : h.next n ≡ first ys root
  apart : first ys root ≢ n
  kept : (close h (last root xs) (first ys root)).next n ≡ first ys root
  others : All (λ y. y ≢ n) (xs ++ ys)
  not_root : root ≢ n

list-Closed :
    (h : Nodes) (root n : ℕ) (xs ys : List ℕ) → IsList h root (xs ++ n ∷ ys) → Closed h root n xs ys
list-Closed h root n xs ys l =
    let (chain, distinct) = l in
    let rooted = All-drop (λ y. y ≢ root) n xs ys distinct.0 in
    let others = Distinct-others n xs ys distinct.1 in
    let not_root : root ≢ n = λ e. rooted.0 (sym e) in
    let p = last root xs in
    let q = first ys root in
    let p_apart : p ≢ n =
      last-All (λ y. y ≢ n) root xs not_root (All-append_left (λ y. y ≢ n) xs ys others) in
    let after = (Chain-at h n [] ys root (Chain-after h root n xs ys root chain)).0 in
    record {
      list = (
        close-Chain h n root xs ys root chain distinct distinct.0,
        (rooted.1, Distinct-drop n xs ys distinct.1),
      );
      before = (Chain-at h root xs (n ∷ ys) root chain).1;
      after = after;
      apart = first-All (λ y. y ≢ n) xs ys root others not_root;
      kept = next-close h p q n (λ e. p_apart (sym e)) ∙ after;
      others = others;
      not_root = not_root;
    }

-- The node still counts as linked.
Closed-linked :
    (h : Nodes) (root n : ℕ) (xs ys : List ℕ)
    → Closed h root n xs ys
    → is_linked (close h (last root xs) (first ys root)) n ≡ true
unfolding is_linked
Closed-linked h root n xs ys r = ground (arith, r.kept, r.apart)

-- `erase` of a node of a list takes out exactly that node, and leaves its own fields as they were, so
-- that it still counts as linked.
pub erase-IsList :
    (h : Nodes) (root n : ℕ) (xs ys : List ℕ)
    → IsList h root (xs ++ n ∷ ys)
    → IsList (erase h n) root (xs ++ ys) × (is_linked (erase h n) n ≡ true)
unfolding erase close
erase-IsList h root n xs ys l =
    let r = list-Closed h root n xs ys l in
    subst (λ (g : Nodes). IsList g root (xs ++ ys) × (is_linked g n ≡ true))
      (sym (ap₂ (λ p q. close h p q) r.before r.after)) (r.list, Closed-linked h root n xs ys r)

-- `pop_front` takes out the first node of a list, and leaves its own fields as they were, so that it
-- still counts as linked.
pub pop_front_lem :
    (h : Nodes) (root n : ℕ) (xs : List ℕ)
    → IsList h root (n ∷ xs)
    → IsList (pop_front h root) root xs × (is_linked (pop_front h root) n ≡ true)
unfolding pop_front close
pop_front_lem h root n xs l =
    let r = list-Closed h root n [] xs l in
    subst (λ (g : Nodes). IsList g root xs × (is_linked g n ≡ true))
      (sym (ap (λ q. close h root q) (ap h.next l.0.0 ∙ r.after)))
      (r.list, Closed-linked h root n [] xs r)

-- `pop_back` takes out the last node of a list, and leaves its own fields as they were, so that it still
-- counts as linked.
pub pop_back_lem :
    (h : Nodes) (root n : ℕ) (xs : List ℕ)
    → IsList h root (xs ++ n ∷ [])
    → IsList (pop_back h root) root xs × (is_linked (pop_back h root) n ≡ true)
unfolding pop_back close
pop_back_lem h root n xs l =
    let r = list-Closed h root n xs [] l in
    let at_end = (Chain-after h root n xs [] root l.0).1 in
    subst (λ (g : Nodes). IsList g root xs × (is_linked g n ≡ true))
      (sym (ap (λ p. close h p root) (ap h.prev at_end ∙ r.before)))
      (rw (append-nil xs) at r.list, Closed-linked h root n xs [] r)

self_link : Nodes → ℕ → Nodes
self_link g n = set_prev (set_next g n n) n n

self_link-Chain :
    (g : Nodes) (n a : ℕ) (xs : List ℕ) (b : ℕ)
    → Chain g a xs b
    → a ≢ n
    → b ≢ n
    → All (λ y. y ≢ n) xs
    → Chain (self_link g n) a xs b
unfolding self_link
self_link-Chain g n a [] b c e f k = (ground (arith, c.0, e), ground (arith, c.1, f))
self_link-Chain g n a (x ∷ xs) b c e f k =
    (ground (arith, c.0, e), ground (arith, c.1, k.0), self_link-Chain g n x xs b c.2 k.0 f k.1)

-- `remove` of a node of a list takes out exactly that node, which then does not count as linked.
pub remove_lem :
    (h : Nodes) (root n : ℕ) (xs ys : List ℕ)
    → IsList h root (xs ++ n ∷ ys)
    → IsList (remove h n) root (xs ++ ys) × (is_linked (remove h n) n ≡ false)
unfolding is_linked remove close self_link
remove_lem h root n xs ys l =
    let r = list-Closed h root n xs ys l in
    let linked : (h.next n == n) ≡ false = ground (arith, r.after, r.apart) in
    let g = close h (last root xs) (first ys root) in
    rw linked (
      subst
        (λ (g : Nodes).
          IsList (self_link g n) root (xs ++ ys) × (is_linked (self_link g n) n ≡ false))
        (sym (ap₂ (λ p q. close h p q) r.before r.after))
        (
          (
            self_link-Chain g n root (xs ++ ys) root r.list.0 r.not_root r.not_root r.others,
            r.list.1,
          ),
          ground arith,
        ))
