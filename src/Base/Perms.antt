-- ===== src/Base/Perms.antt =====
-- Writes into a list, up to order.
use mathlib.Core.List.{Perm}
use mathlib.Core.List.Perm
use mathlib.Core.Logic.{◌≢◌}
use mathlib.Core.Path.{◌≡◌, refl}
use mathlib.Core.List.{List, [], ◌∷◌, ◌++◌, append-nil, perm_middle}
use Prim.Native.Nat.{ℕ, zero, suc, ◌<◌}
use native.Mathlib.Omega.{arith}
use noise_v.Base.Lists.{length, get_or, set, length-set, get_or-set}

module _ {ℓ} {A : Type ℓ} where
  -- In range the default does not matter.
  pub get_or-default :
      (xs : List A) (i : ℕ) (a b : A) → i < length xs → get_or xs i a ≡ get_or xs i b
  get_or-default [] i a b h = absurd (omega arith)
  get_or-default (x ∷ xs) zero a b h = refl
  get_or-default (x ∷ xs) (suc i) a b h = get_or-default xs i a b (omega arith)

  -- The entry that is overwritten and the list after the write are the written value and the list.
  pub set-perm :
      (xs : List A) (i : ℕ) (v d : A) → i < length xs → Perm (get_or xs i d ∷ set xs i v) (v ∷ xs)
  set-perm [] i v d h = absurd (omega arith)
  set-perm (x ∷ xs) zero v d h = Perm.swap v x xs
  set-perm (x ∷ xs) (suc i) v d h =
      Perm.trans (Perm.swap x (get_or xs i d) (set xs i v))
        (Perm.trans (Perm.cons x (set-perm xs i v d (omega arith))) (Perm.swap v x xs))

  -- Moving an entry into a hole and filling the place that it leaves.
  pub move-perm :
      (xs : List A) (i j : ℕ) (t : A)
      → i < length xs
      → j < length xs
      → i ≢ j
      → Perm (set (set xs i (get_or xs j t)) j t) (set xs i t)
  move-perm xs i j t hi hj ne =
      let moved = get_or xs j t in
      let kept : get_or (set xs i moved) j t ≡ moved = ground (arith, get_or-set xs i j moved t) in
      let a = set-perm (set xs i moved) j t t (rw length-set hj) in
      let b = rw kept at a in
      let c = set-perm xs i moved t hi in
      let e = set-perm xs i t t hi in
      let old = get_or xs i t in
      let both : Perm (old ∷ moved ∷ set (set xs i moved) j t) (old ∷ moved ∷ set xs i t) =
        Perm.trans (Perm.cons old b) (
          Perm.trans (Perm.swap t old (set xs i moved)) (
            Perm.trans (Perm.cons t c) (
              Perm.trans (Perm.swap moved t xs) (
                Perm.trans (Perm.cons moved (Perm.symm e)) (Perm.swap old moved (set xs i t)))))) in
      Perm.cons_inv (Perm.cons_inv both)

  pub concat-perm : (xs : List A) (x : A) → Perm (xs ++ x ∷ []) (x ∷ xs)
  concat-perm xs x = rw (append-nil xs) at (perm_middle {a = x} xs [])

  pub set_same-perm :
      (xs : List A) (i : ℕ) (d : A) → i < length xs → Perm (set xs i (get_or xs i d)) xs
  set_same-perm xs i d h = Perm.cons_inv (set-perm xs i (get_or xs i d) d h)
