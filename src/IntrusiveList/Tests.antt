-- ===== src/IntrusiveList/Tests.antt =====
-- Instances of the theorems on intrusive lists: root 0 and the list 1 2.
use noise_v.Base.{ℕ, ◌≢◌, refl, [], ◌∷◌, arith, ◌==◌, if◌then◌else◌, All}
use noise_v.IntrusiveList.{Nodes, insert}
use noise_v.IntrusiveList.Chain.{IsList}
use noise_v.IntrusiveList.Insert.{insert-IsList}

three : Nodes
three = record {
  next = λ i. if i == 0 then 1 else if i == 1 then 2 else if i == 2 then 0 else i;
  prev = λ i. if i == 0 then 2 else if i == 1 then 0 else if i == 2 then 1 else i;
}

three-IsList : IsList three 0 (1 ∷ 2 ∷ [])
unfolding three
three-IsList = (
  (refl, refl, (refl, refl, (refl, refl))),
  (
    ((λ e. omega (arith, e)), ((λ e. omega (arith, e)), tt)),
    (((λ e. omega (arith, e)), tt), (tt, tt)),
  ),
)

new_node : All (λ (y : ℕ). y ≢ 3) (0 ∷ 1 ∷ 2 ∷ [])
new_node = ((λ e. omega (arith, e)), ((λ e. omega (arith, e)), ((λ e. omega (arith, e)), tt)))

insert-IsList_example : IsList (insert three 2 3) 0 (1 ∷ 3 ∷ 2 ∷ [])
insert-IsList_example = insert-IsList three 0 3 (1 ∷ []) (2 ∷ []) three-IsList new_node
