-- ===== src/UserDb/Ordered.antt =====
-- `ORDER BY` on a text column: the rows in ascending order of their keys, rows of one key in the order
-- in which they stand.
use mathlib.Core.List.{Perm, Pairwise, Pairwise-singleton, Mem, forall_mem-cons}
use mathlib.Core.List.Perm
use mathlib.Core.Bool.{Bool-set}
use btest_rs.Base.{
  ◌≡◌, true, Bool-cases, inl, inr, List, [], ◌∷◌, Bytes, bytes_le, bytes_le_trans, bytes_le_total,
  if◌then◌else◌,
}

module _ {ℓ} {A : Type ℓ} (key : A → Bytes) where
  unfoldable pub ordered_insert : A → List A → List A
  ordered_insert x [] = x ∷ []
  ordered_insert x (y ∷ ys) =
      let later = ordered_insert x ys in if bytes_le (key x) (key y) then x ∷ y ∷ ys else y ∷ later

  unfoldable pub order_by : List A → List A
  unfolding ordered_insert
  order_by [] = []
  order_by (x ∷ xs) = ordered_insert x (order_by xs)

  abbrev pub IsKeySorted : List A → Type ℓ
  IsKeySorted = Pairwise (λ a b. bytes_le (key a) (key b) ≡ true)

  -- Every row of a list comes after a key.
  abbrev IsAfter : A → List A → Type ℓ
  IsAfter x l = (y : A) → Mem y l → bytes_le (key x) (key y) ≡ true

  IsAfter-cons :
      (x y : A) (l : List A) → bytes_le (key x) (key y) ≡ true → IsAfter x l → IsAfter x (y ∷ l)
  IsAfter-cons x y l p h =
      (forall_mem-cons (λ z. Bool-set (bytes_le (key x) (key z)) true)).1 (p, h)

  ordered_insert-perm : (x : A) (l : List A) → Perm (ordered_insert x l) (x ∷ l)
  unfolding ordered_insert
  ordered_insert-perm x [] = Perm.rfl
  ordered_insert-perm x (y ∷ ys) = elim (Bool-cases (bytes_le (key x) (key y))) [
    | inl e ↦ rw e Perm.rfl
    | inr e ↦ rw e (Perm.trans (Perm.cons y (ordered_insert-perm x ys)) (Perm.swap x y ys))
  ]

  pub order_by-perm : (l : List A) → Perm (order_by l) l
  unfolding order_by
  order_by-perm [] = Perm.rfl
  order_by-perm (x ∷ xs) =
      Perm.trans (ordered_insert-perm x (order_by xs)) (Perm.cons x (order_by-perm xs))

  ordered_insert-IsKeySorted :
      (x : A) {l : List A} → IsKeySorted l → IsKeySorted (ordered_insert x l)
  unfolding ordered_insert
  ordered_insert-IsKeySorted x Pairwise.nil = Pairwise-singleton _ x
  ordered_insert-IsKeySorted x (Pairwise.cons {a = y} {l = ys} below s) =
      elim (Bool-cases (bytes_le (key x) (key y))) [
        | inl e ↦ rw e (
            Pairwise.cons
              (IsAfter-cons x y ys e (λ z m. bytes_le_trans (key x) (key y) (key z) e (below z m)))
              (Pairwise.cons below s))
        | inr e ↦ rw e (
            Pairwise.cons
              (λ z m.
                IsAfter-cons y x ys (bytes_le_total (key x) (key y) e) below z
                  ((Perm.mem_iff (ordered_insert-perm x ys)).0 m))
              (ordered_insert-IsKeySorted x s))
      ]

  pub order_by-IsKeySorted : (l : List A) → IsKeySorted (order_by l)
  unfolding order_by
  order_by-IsKeySorted [] = Pairwise.nil
  order_by-IsKeySorted (x ∷ xs) = ordered_insert-IsKeySorted x (order_by-IsKeySorted xs)
