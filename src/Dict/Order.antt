-- ===== src/Dict/Order.antt =====
-- The keys of a std::map stand in increasing order, so that none stands twice.
use gogol.Prelude.{
  ◌≡◌, refl, ap, ◌∙◌, Bool, true, false, ◌&&◌, Option, none, some, [], ◌∷◌, arith, if◌then◌else◌,
  keep, map, Bool-cases, inl, inr,
}
use gogol.Text.{Bytes, str_eq, str_eq_iff, str_eq_refl}
use gogol.Dict.{Dict, str_less, get, put, erase, has_key, distinct_keys, get_of_absent}

str_less_trans : (a b c : Bytes) → str_less a b ≡ true → str_less b c ≡ true → str_less a c ≡ true
unfolding str_less
str_less_trans [] b [] h k = ground arith
str_less_trans [] b (z ∷ c) h k = refl
str_less_trans (x ∷ a) [] c h k = cc
str_less_trans (x ∷ a) (y ∷ b) [] h k = cc
str_less_trans (x ∷ a) (y ∷ b) (z ∷ c) h k = ground (arith, str_less_trans a b c)

str_less-total : (a b : Bytes) → str_eq a b ≡ false → str_less a b ≡ false → str_less b a ≡ true
unfolding str_less str_eq
str_less-total [] [] h k = cc
str_less-total [] (y ∷ b) h k = cc
str_less-total (x ∷ a) [] h k = refl
str_less-total (x ∷ a) (y ∷ b) h k = ground (arith, str_less-total a b)

str_less-apart : (a b : Bytes) → str_less a b ≡ true → str_eq a b ≡ false
unfolding str_less str_eq
str_less-apart [] [] h = cc
str_less-apart [] (y ∷ b) h = refl
str_less-apart (x ∷ a) [] h = refl
str_less-apart (x ∷ a) (y ∷ b) h = ground (arith, str_less-apart a b)

module _ {ℓ} {V : Type ℓ} where
  -- The key is less than every key of the map.
  below : Bytes → Dict V → Bool
  below k [] = true
  below k ((k', v) ∷ m) = str_less k k' && below k m

  unfoldable pub is_sorted : Dict V → Bool
  unfolding below
  is_sorted [] = true
  is_sorted ((k, v) ∷ m) = below k m && is_sorted m

  below_trans :
      (j k : Bytes) (m : Dict V) → str_less j k ≡ true → below k m ≡ true → below j m ≡ true
  unfolding below
  below_trans j k [] h b = refl
  below_trans j k ((k', v) ∷ m) h b = ground (arith, below_trans j k m, str_less_trans j k k')

  below-put :
      (j k : Bytes) (v : V) (m : Dict V)
      → str_less j k ≡ true
      → below j m ≡ true
      → below j (put k v m) ≡ true
  unfolding below put
  below-put j k v [] h b = ground arith
  below-put j k v ((k', v') ∷ m) h b = ground (arith, below-put j k v m)

  pub is_sorted-put :
      (k : Bytes) (v : V) (m : Dict V) → is_sorted m ≡ true → is_sorted (put k v m) ≡ true
  unfolding is_sorted below put
  is_sorted-put k v [] h = refl
  is_sorted-put k v ((k', v') ∷ m) h = elim (Bool-cases (str_eq k k')) [
    | inl same ↦ rw (same, (str_eq_iff k k').0 same) h
    | inr other ↦ elim (Bool-cases (str_less k k')) [
      | inl less ↦ rw (other, less) (ground (arith, h, less, below_trans k k' m))
      | inr more ↦
          rw (other, more)
            (ground
              (arith, h, is_sorted-put k v m, below-put k' k v m, str_less-total k k' other more))
    ]
  ]

  below-erase : (j k : Bytes) (m : Dict V) → below j m ≡ true → below j (erase k m) ≡ true
  unfolding below erase
  below-erase j k [] b = refl
  below-erase j k ((k', v) ∷ m) b = ground (arith, below-erase j k m)

  pub is_sorted-erase : (k : Bytes) (m : Dict V) → is_sorted m ≡ true → is_sorted (erase k m) ≡ true
  unfolding is_sorted erase
  is_sorted-erase k [] h = refl
  is_sorted-erase k ((k', v) ∷ m) h = ground (arith, is_sorted-erase k m, below-erase k' k m)

  has_key-below : (k : Bytes) (m : Dict V) → below k m ≡ true → has_key k m ≡ false
  unfolding below has_key
  has_key-below k [] b = refl
  has_key-below k ((k', v) ∷ m) b = ground (arith, has_key-below k m, str_less-apart k k')

  pub distinct_keys-is_sorted : (m : Dict V) → is_sorted m ≡ true → distinct_keys m ≡ true
  unfolding is_sorted
  distinct_keys-is_sorted [] h = refl
  distinct_keys-is_sorted ((k, v) ∷ m) h =
      ground (arith, distinct_keys-is_sorted m, has_key-below k m)

  -- A part of a map, by a test on its entries.
  module _ (p : Bytes × V → Bool) where
    below-keep : (k : Bytes) (m : Dict V) → below k m ≡ true → below k (keep p m) ≡ true
    unfolding below
    below-keep k [] b = refl
    below-keep k ((k', v) ∷ m) b = ground (arith, below-keep k m)

    pub is_sorted-keep : (m : Dict V) → is_sorted m ≡ true → is_sorted (keep p m) ≡ true
    unfolding is_sorted
    is_sorted-keep [] h = refl
    is_sorted-keep ((k, v) ∷ m) h = ground (arith, is_sorted-keep m, below-keep k m)

    -- The value of a key where its entry passes the test.
    abbrev pub kept : Bytes → Option V → Option V
    kept k none = none
    kept k (some v) = if p (k, v) then some v else none

    pub get-keep :
        (k : Bytes) (m : Dict V) → distinct_keys m ≡ true → get k (keep p m) ≡ kept k (get k m)
    unfolding get
    get-keep k [] h = refl
    get-keep k ((k', v) ∷ m) h =
        let rest : distinct_keys m ≡ true = ground (arith, h) in
        let once : has_key k' m ≡ false = ground (arith, h) in
        elim (Bool-cases (str_eq k k')) [
          | inl same ↦ rw same (
              rw ((str_eq_iff k k').0 same) (elim (Bool-cases (p (k', v))) [
                | inl hit ↦ rw (hit, str_eq_refl k') refl
                | inr miss ↦ rw miss (get-keep k' m rest ∙ rw (get_of_absent k' m once) refl)
              ]))
          | inr other ↦ elim (Bool-cases (p (k', v))) [
            | inl hit ↦ rw (hit, other) (get-keep k m rest)
            | inr miss ↦ rw (miss, other) (get-keep k m rest)
          ]
        ]

    -- Whether a key is among those whose entries pass the test.
    abbrev pub is_taken : Bytes → Option V → Bool
    is_taken k none = false
    is_taken k (some v) = p (k, v)

    absent_keys :
        (k : Bytes) (m : Dict V)
        → has_key k m ≡ false
        → keep (str_eq k) (map (λ (e : Bytes × V). e.0) (keep p m)) ≡ []
    unfolding has_key
    absent_keys k [] h = refl
    absent_keys k ((k', v) ∷ m) h = elim (Bool-cases (p (k', v))) [
      | inl hit ↦
          let other : str_eq k k' ≡ false = ground (arith, h) in
          rw (hit, other) (absent_keys k m (ground (arith, h)))
      | inr miss ↦ rw miss (absent_keys k m (ground (arith, h)))
    ]

    pub keys-keep :
        (k : Bytes) (m : Dict V)
        → distinct_keys m ≡ true
        → keep (str_eq k) (map (λ (e : Bytes × V). e.0) (keep p m))
          ≡ (if is_taken k (get k m) then k ∷ [] else [])
    unfolding get
    keys-keep k [] h = refl
    keys-keep k ((k', v) ∷ m) h =
        let rest : distinct_keys m ≡ true = ground (arith, h) in
        let once : has_key k' m ≡ false = ground (arith, h) in
        elim (Bool-cases (str_eq k k')) [
          | inl same ↦ rw same (
              rw ((str_eq_iff k k').0 same) (elim (Bool-cases (p (k', v))) [
                | inl hit ↦ rw (hit, str_eq_refl k') (ap (◌∷◌ k') (absent_keys k' m once))
                | inr miss ↦ rw miss (absent_keys k' m once)
              ]))
          | inr other ↦ elim (Bool-cases (p (k', v))) [
            | inl hit ↦ rw (hit, other) (keys-keep k m rest)
            | inr miss ↦ rw (miss, other) (keys-keep k m rest)
          ]
        ]
