-- ===== src/Channels/Last.antt =====
-- What a deque of bounded length holds: the last items that were pushed.
use mathlib.Core.List.{append_assoc}
use starlite.Prelude.{
  ℕ, suc, ◌-◌, ◌≤◌, ◌≡◌, ap, List, [], ◌∷◌, ◌++◌, length, length-append, length-drop, drop, leb,
  arith, Bool-cases, inl, inr,
}

module _ {ℓ} {A : Type ℓ} where
  -- The last `n` items.
  abbrev pub last : ℕ → List A → List A
  last n items = drop (length items - n) items

  pub last_all : (n : ℕ) (xs : List A) → length xs ≤ n → last n xs ≡ xs
  last_all n xs h = let nothing : length xs - n ≡ 0 = omega arith in rw nothing

  pub last_cons : (n : ℕ) (x : A) (xs : List A) → n ≤ length xs → last n (x ∷ xs) ≡ last n xs
  last_cons n x xs h = let one : suc (length xs) - n ≡ suc (length xs - n) = omega arith in rw one

  -- Pushing at one end and dropping at the other.
  pub last-append :
      (n : ℕ) (old items : List A) (item : A)
      → length old ≤ suc n
      → last (suc n) (last (suc n) (old ++ item ∷ []) ++ items) ≡ last (suc n) (old ++ item ∷ items)
  last-append n [] items item h = rw (last_all (suc n) (item ∷ []) (omega arith))
  last-append n (y ∷ old) items item h = elim (Bool-cases (leb (suc n) (suc (length old)))) [
    | inr room ↦
        rw
          (last_all (suc n) (y ∷ old ++ item ∷ [])
            (rw (length-append old (item ∷ [])) (ground arith)))
          (ap (λ l. last (suc n) (y ∷ l)) (append_assoc old (item ∷ []) items))
    | inl full ↦
        let exact : length (old ++ item ∷ []) ≡ suc n =
          rw (length-append old (item ∷ [])) (ground arith) in
        rw (last_cons (suc n) y (old ++ item ∷ []) (omega arith)) (
          rw (last_all (suc n) (old ++ item ∷ []) (omega arith)) (
            rw
              (last_cons (suc n) y (old ++ item ∷ items)
                (rw (length-append old (item ∷ items)) (ground arith)))
              (ap (last (suc n)) (append_assoc old (item ∷ []) items))))
  ]

  pub length-last : (n : ℕ) (xs : List A) → length (last n xs) ≤ n
  length-last n xs = rw (length-drop (length xs - n) xs) (omega arith)
