-- ===== src/IntrusiveList/Insert.antt =====
-- The insertions of kernel/include/libs/intrusive_list.hpp.
use mathlib.Core.List.{append-nil}
use noise_v.Base.{ℕ, ◌≡◌, ◌≢◌, ap, sym, subst, ◌∙◌, List, [], ◌∷◌, ◌++◌, arith, All, Distinct}
use noise_v.IntrusiveList.{Nodes, set_next, set_prev, push_back, push_front, insert}
use noise_v.IntrusiveList.Chain.{
  Chain, IsList, first, last, All-append_left, first-All, last-All, Chain-at, Chain-frame,
}

-- The four writes that put `n` between `p` and `q`.
join : Nodes → ℕ → ℕ → ℕ → Nodes
join h p n q = set_prev (set_next (set_prev (set_next h n q) n p) p n) q n

-- What they leave of a node `x` other than the three.
next-join : (h : Nodes) (p n q x : ℕ) → x ≢ p → x ≢ n → (join h p n q).next x ≡ h.next x
unfolding join
next-join h p n q x e f = ground arith

prev-join : (h : Nodes) (p n q x : ℕ) → x ≢ q → x ≢ n → (join h p n q).prev x ≡ h.prev x
unfolding join
prev-join h p n q x e f = ground arith

join_here :
    (h : Nodes) (p n q : ℕ)
    → n ≢ p
    → n ≢ q
    → ((join h p n q).next p ≡ n)
      × ((join h p n q).prev n ≡ p)
      × ((join h p n q).next n ≡ q)
      × ((join h p n q).prev q ≡ n)
unfolding join
join_here h p n q e f = ground arith

frame-All :
    (h : Nodes) (p n q : ℕ) (ys : List ℕ)
    → All (λ y. y ≢ p) ys
    → All (λ y. y ≢ q) ys
    → All (λ y. y ≢ n) ys
    → All (λ y. ((join h p n q).next y ≡ h.next y) × ((join h p n q).prev y ≡ h.prev y)) ys
frame-All h p n q [] f g k = tt
frame-All h p n q (y ∷ ys) f g k =
    ((next-join h p n q y f.0 k.0, prev-join h p n q y g.0 k.0), frame-All h p n q ys f.1 g.1 k.1)

-- A new node in the middle of a chain.
join-Chain :
    (h : Nodes) (n a : ℕ) (xs ys : List ℕ) (b : ℕ)
    → Chain h a (xs ++ ys) b
    → Distinct (a ∷ xs ++ ys)
    → All (λ y. y ≢ b) (xs ++ ys)
    → All (λ y. y ≢ n) (xs ++ ys)
    → n ≢ a
    → n ≢ b
    → Chain (join h (last a xs) n (first ys b)) a (xs ++ n ∷ ys) b
join-Chain h n a [] [] b c d eb en na nb =
    let here = join_here h a n b na nb in (here.0, here.1, (here.2, here.3))
join-Chain h n a [] (y ∷ ys) b c d eb en na nb =
    let here = join_here h a n y na (λ e. en.0 (sym e)) in
    (
      here.0,
      here.1,
      (
        here.2,
        here.3,
        Chain-frame h (join h a n y) y ys b c.2 (next-join h a n y y d.0.0 en.0)
            (prev-join h a n y b (λ e. eb.0 (sym e)) (λ e. nb (sym e)))
            (frame-All h a n y ys d.0.1 d.1.0 en.1),
      ),
    )
join-Chain h n a (x ∷ xs) ys b c d eb en na nb =
    let p = last x xs in
    let q = first ys b in
    let not_last : p ≢ a =
      last-All (λ y. y ≢ a) x xs d.0.0 (All-append_left (λ y. y ≢ a) xs ys d.0.1) in
    let not_first : q ≢ x = first-All (λ y. y ≢ x) xs ys b d.1.0 (λ e. eb.0 (sym e)) in
    (
      next-join h p n q a (λ e. not_last (sym e)) (λ e. na (sym e)) ∙ c.0,
      prev-join h p n q x (λ e. not_first (sym e)) en.0 ∙ c.1,
      join-Chain h n x xs ys b c.2 d.1 eb.1 en.1 (λ e. en.0 (sym e)) nb,
    )

All-middle :
    (P : ℕ → Type 0) (n : ℕ) (xs ys : List ℕ) → All P (xs ++ ys) → P n → All P (xs ++ n ∷ ys)
All-middle P n [] ys f p = (p, f)
All-middle P n (x ∷ xs) ys f p = (f.0, All-middle P n xs ys f.1 p)

Distinct-middle :
    (n : ℕ) (xs ys : List ℕ)
    → Distinct (xs ++ ys)
    → All (λ y. y ≢ n) (xs ++ ys)
    → Distinct (xs ++ n ∷ ys)
Distinct-middle n [] ys d f = (f, d)
Distinct-middle n (x ∷ xs) ys d f =
    (All-middle (λ y. y ≢ x) n xs ys d.0 (λ e. f.0 (sym e)), Distinct-middle n xs ys d.1 f.1)

-- Inserting a new node before the node at `pos`, the root for the end, puts it there in the list.
pub insert-IsList :
    (h : Nodes) (root n : ℕ) (xs ys : List ℕ)
    → IsList h root (xs ++ ys)
    → All (λ y. y ≢ n) (root ∷ xs ++ ys)
    → IsList (insert h (first ys root) n) root (xs ++ n ∷ ys)
unfolding insert join
insert-IsList h root n xs ys l new =
    let (chain, distinct) = l in
    let at = Chain-at h root xs ys root chain in
    (
      rw (at.1) (
          join-Chain h n root xs ys root chain distinct distinct.0 new.1 (λ e. new.0 (sym e))
            (λ e. new.0 (sym e))),
      (
        All-middle (λ y. y ≢ root) n xs ys distinct.0 (λ e. new.0 (sym e)),
        Distinct-middle n xs ys distinct.1 new.1,
      ),
    )

-- `push_back` of a new node appends it.
pub push_back_lem :
    (h : Nodes) (root n : ℕ) (xs : List ℕ)
    → IsList h root xs
    → All (λ y. y ≢ n) (root ∷ xs)
    → IsList (push_back h root n) root (xs ++ n ∷ [])
unfolding push_back insert
push_back_lem h root n xs l new =
    insert-IsList h root n xs [] (rw (append-nil xs) l) (rw (append-nil xs) new)

insert-push_front :
    (h : Nodes) (root n : ℕ)
    → h.prev (h.next root) ≡ root
    → insert h (h.next root) n ≡ push_front h root n
unfolding insert push_front
insert-push_front h root n e =
    ap (λ p. set_prev (set_next (set_prev (set_next h n (h.next root)) n p) p n) (h.next root) n) e

-- `push_front` of a new node puts it first.
pub push_front_lem :
    (h : Nodes) (root n : ℕ) (xs : List ℕ)
    → IsList h root xs
    → All (λ y. y ≢ n) (root ∷ xs)
    → IsList (push_front h root n) root (n ∷ xs)
push_front_lem h root n xs l new =
    let at = Chain-at h root [] xs root l.0 in
    let front : h.next root ≡ first xs root = at.0 in
    let same = insert-push_front h root n (ap h.prev front ∙ at.1) in
    subst (λ (g : Nodes). IsList g root (n ∷ xs)) (ap (λ pos. insert h pos n) (sym front) ∙ same)
      (insert-IsList h root n [] xs l new)
