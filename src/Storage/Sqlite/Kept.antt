-- ===== src/Storage/Sqlite/Kept.antt =====
-- Lists filtered, mapped and reordered, as the rows of a SELECT are.
use mathlib.Core.List.{Permᴰ}
use mathlib.Core.List.Permᴰ
use gogol.Prelude.{
  ◌≡◌, refl, ap, ap₂, Bool, true, false, not, ◌&&◌, ◌||◌, List, [], ◌∷◌, ◌++◌, map, if◌then◌else◌,
  keep, arith, All, Bool-cases, inl, inr, subst,
}

module _ {ℓ} {A : Type ℓ} where
  pub keep-append : (p : A → Bool) (xs ys : List A) → keep p (xs ++ ys) ≡ keep p xs ++ keep p ys
  keep-append p [] ys = refl
  keep-append p (x ∷ xs) ys = ground (arith, keep-append p xs ys)

  -- A test that contradicts the one before it keeps nothing, one that follows from it everything.
  pub keep-none :
      (p q : A → Bool)
      → ((x : A) → q x ≡ true → p x ≡ false)
      → (xs : List A) → keep p (keep q xs) ≡ []
  keep-none p q h [] = refl
  keep-none p q h (x ∷ xs) = ground (arith, keep-none p q h xs, h x)

  pub keep-same :
      (p q : A → Bool)
      → ((x : A) → p x ≡ true → q x ≡ true)
      → (xs : List A) → keep p (keep q xs) ≡ keep p xs
  keep-same p q h [] = refl
  keep-same p q h (x ∷ xs) = ground (arith, keep-same p q h xs, h x)

  keep-cons :
      (p : A → Bool) (x : A) (xs ys : List A)
      → Permᴰ (keep p xs) (keep p ys)
      → Permᴰ (keep p (x ∷ xs)) (keep p (x ∷ ys))
  keep-cons p x xs ys d = elim (Bool-cases (p x)) [
    | inl e ↦ rw e (Permᴰ.cons refl d)
    | inr e ↦ rw e d
  ]

  keep-swap :
      (p : A → Bool) (x y : A) (xs : List A) → Permᴰ (keep p (x ∷ y ∷ xs)) (keep p (y ∷ x ∷ xs))
  keep-swap p x y xs = elim (Bool-cases (p x)) [
    | inl e ↦ elim (Bool-cases (p y)) [
      | inl f ↦ rw (e, f) (Permᴰ.swap refl refl)
      | inr f ↦ rw (e, f) (Permᴰ.refl _)
    ]
    | inr e ↦ rw e (Permᴰ.refl _)
  ]

  pub Permᴰ-keep : (p : A → Bool) {xs ys : List A} → Permᴰ xs ys → Permᴰ (keep p xs) (keep p ys)
  Permᴰ-keep p Permᴰ.nil = Permᴰ.nil
  Permᴰ-keep p (Permᴰ.cons {a = a} {l₁ = l₁} {l₂ = l₂} e d) =
      subst (λ z. Permᴰ (keep p (a ∷ l₁)) (keep p (z ∷ l₂))) e
        (keep-cons p a l₁ l₂ (Permᴰ-keep p d))
  Permᴰ-keep p (Permᴰ.swap {a = a} {b = b} {b' = b'} {l = l} e f) =
      subst (λ z. Permᴰ (keep p (a ∷ b ∷ l)) (keep p (z ∷ b' ∷ l))) f
        (subst (λ z. Permᴰ (keep p (a ∷ b ∷ l)) (keep p (b ∷ z ∷ l))) e (keep-swap p a b l))
  Permᴰ-keep p (Permᴰ.trans d e) = Permᴰ.trans (Permᴰ-keep p d) (Permᴰ-keep p e)

  pub Permᴰ-map {κ} :
      {B : Type κ} (f : A → B) {xs ys : List A} → Permᴰ xs ys → Permᴰ (map f xs) (map f ys)
  Permᴰ-map f Permᴰ.nil = Permᴰ.nil
  Permᴰ-map f (Permᴰ.cons e d) = Permᴰ.cons (ap f e) (Permᴰ-map f d)
  Permᴰ-map f (Permᴰ.swap e g) = Permᴰ.swap (ap f e) (ap f g)
  Permᴰ-map f (Permᴰ.trans d e) = Permᴰ.trans (Permᴰ-map f d) (Permᴰ-map f e)

  pub keep-map {κ} :
      {B : Type κ} (p : A → Bool) (f : B → A) (b : Bool)
      → ((x : B) → p (f x) ≡ b)
      → (xs : List B) → keep p (map f xs) ≡ (if b then map f xs else [])
  keep-map p f true h [] = refl
  keep-map p f false h [] = refl
  keep-map p f true h (x ∷ xs) = rw (h x) (ap (◌∷◌ (f x)) (keep-map p f true h xs))
  keep-map p f false h (x ∷ xs) = rw (h x) (keep-map p f false h xs)

  pub map-cancel {κ} :
      {B : Type κ} (f : A → B) (g : B → A) (xs : List A)
      → All (λ x. g (f x) ≡ x) xs
      → map g (map f xs) ≡ xs
  map-cancel f g [] h = refl
  map-cancel f g (x ∷ xs) h = ap₂ ◌∷◌ h.0 (map-cancel f g xs h.1)

pub and-left : (a b : Bool) → a && b ≡ true → a ≡ true
and-left true b h = refl
and-left false b h = cc

pub and-right : (a b : Bool) → a && b ≡ true → b ≡ true
and-right true b h = h
and-right false b h = cc

pub not-false : (b : Bool) → not b ≡ true → b ≡ false
not-false true h = cc
not-false false h = refl

pub not-true : (b : Bool) → b ≡ false → not b ≡ true
not-true true h = cc
not-true false h = refl

pub or-left : (a b : Bool) → a || b ≡ false → a ≡ false
or-left true b h = cc
or-left false b h = refl

pub or-right : (a b : Bool) → a || b ≡ false → b ≡ false
or-right true b h = cc
or-right false b h = h
