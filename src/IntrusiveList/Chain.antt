-- ===== src/IntrusiveList/Chain.antt =====
-- What it means for the nodes of kernel/include/libs/intrusive_list.hpp to form a list.
use noise_v.Base.{ℕ, ◌≡◌, ◌∙◌, List, [], ◌∷◌, ◌++◌, All, Distinct}
use noise_v.IntrusiveList.{Nodes}

-- From node `a` over `xs` to node `b`, forwards and backwards.
abbrev pub Chain : Nodes → ℕ → List ℕ → ℕ → Type 0
Chain h a [] b = (h.next a ≡ b) × (h.prev b ≡ a)
Chain h a (x ∷ xs) b = (h.next a ≡ x) × (h.prev x ≡ a) × Chain h x xs b

-- The list with this root holds exactly these nodes, in this order, each once.
abbrev pub IsList : Nodes → ℕ → List ℕ → Type 0
IsList h root xs = Chain h root xs root × Distinct (root ∷ xs)

abbrev pub first : List ℕ → ℕ → ℕ
first [] b = b
first (x ∷ xs) b = x

abbrev pub last : ℕ → List ℕ → ℕ
last a [] = a
last a (x ∷ xs) = last x xs

pub All-append_left : (P : ℕ → Type 0) (xs ys : List ℕ) → All P (xs ++ ys) → All P xs
All-append_left P [] ys h = tt
All-append_left P (x ∷ xs) ys h = (h.0, All-append_left P xs ys h.1)

pub first-All : (P : ℕ → Type 0) (xs ys : List ℕ) (b : ℕ) → All P (xs ++ ys) → P b → P (first ys b)
first-All P [] [] b h p = p
first-All P [] (y ∷ ys) b h p = h.0
first-All P (x ∷ xs) ys b h p = first-All P xs ys b h.1 p

pub last-All : (P : ℕ → Type 0) (a : ℕ) (xs : List ℕ) → P a → All P xs → P (last a xs)
last-All P a [] p h = p
last-All P a (x ∷ xs) p h = last-All P x xs h.0 h.1

-- The nodes on the two sides of a place in a chain point at each other.
pub Chain-at :
    (h : Nodes) (a : ℕ) (xs ys : List ℕ) (b : ℕ)
    → Chain h a (xs ++ ys) b
    → (h.next (last a xs) ≡ first ys b) × (h.prev (first ys b) ≡ last a xs)
Chain-at h a [] [] b c = c
Chain-at h a [] (y ∷ ys) b c = (c.0, c.1)
Chain-at h a (x ∷ xs) ys b c = Chain-at h x xs ys b c.2

-- A chain only reads `next` from its start on and `prev` up to its end.
pub Chain-frame :
    (h h' : Nodes) (a : ℕ) (xs : List ℕ) (b : ℕ)
    → Chain h a xs b
    → h'.next a ≡ h.next a
    → h'.prev b ≡ h.prev b
    → All (λ x. (h'.next x ≡ h.next x) × (h'.prev x ≡ h.prev x)) xs
    → Chain h' a xs b
Chain-frame h h' a [] b c e f k = (e ∙ c.0, f ∙ c.1)
Chain-frame h h' a (x ∷ xs) b c e f k =
    (e ∙ c.0, k.0.1 ∙ c.1, Chain-frame h h' x xs b c.2 k.0.0 f k.1)
