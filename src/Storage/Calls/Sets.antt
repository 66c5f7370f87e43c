-- ===== src/Storage/Calls/Sets.antt =====
-- Sets of strings as the queries use them, and lists without repetition.
use gogol.Prelude.{
  ◌≡◌, refl, Bool, true, false, not, ◌&&◌, ◌||◌, inl, inr, Bool-cases, List, [], ◌∷◌, ◌++◌, arith,
}
use gogol.Text.{Bytes, str_eq, str_eq_iff}
use gogol.Storage.Calls.{insert, member}

pub member-insert :
    (k x : Bytes) (s : List Bytes) → member k (insert x s) ≡ (str_eq k x || member k s)
unfolding member insert
member-insert k x [] = refl
member-insert k x (y ∷ ys) = elim (Bool-cases (str_eq x y)) [
  | inl same ↦ rw same (rw ((str_eq_iff x y).0 same) (ground arith))
  | inr other ↦ ground (arith, member-insert k x ys)
]

pub member-append :
    (k : Bytes) (xs ys : List Bytes) → member k (xs ++ ys) ≡ (member k xs || member k ys)
unfolding member
member-append k [] ys = refl
member-append k (x ∷ xs) ys = ground (arith, member-append k xs ys)

-- No two are equal.
unfoldable pub distinct : List Bytes → Bool
distinct [] = true
distinct (x ∷ xs) = not (member x xs) && distinct xs

pub distinct-last :
    (xs : List Bytes) (x : Bytes)
    → distinct xs ≡ true
    → member x xs ≡ false
    → distinct (xs ++ x ∷ []) ≡ true
unfolding distinct member
distinct-last [] x h m = refl
distinct-last (y ∷ ys) x h m =
    ground (arith, distinct-last ys x, member-append y ys (x ∷ []), str_eq_iff x y, str_eq_iff y x)

pub repeated :
    (k key : Bytes) (xs : List Bytes)
    → member key xs ≡ true
    → member k xs ≡ (member k xs || member k (key ∷ []))
unfolding member
repeated k key xs h = elim (Bool-cases (str_eq k key)) [
  | inl same ↦ rw ((str_eq_iff k key).0 same, h) refl
  | inr other ↦ rw other (ground arith)
]

pub regroup :
    (k : Bytes) (ts ss xs ys : List Bytes)
    → member k ts ≡ (member k ss || member k xs)
    → (member k ts || member k ys) ≡ (member k ss || member k (xs ++ ys))
regroup k ts ss xs ys e = ground (arith, member-append k xs ys)

pub str_eq_comm : (a b : Bytes) → str_eq a b ≡ str_eq b a
str_eq_comm a b = ground (arith, str_eq_iff a b, str_eq_iff b a)

pub insert_or :
    (f x : Bytes) (s : List Bytes) (b : Bool)
    → (member f (insert x s) || b) ≡ (member f s || (str_eq x f || b))
insert_or f x s b = rw (member-insert f x s, str_eq_comm f x) (ground arith)
