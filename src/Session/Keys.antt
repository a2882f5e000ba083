-- ===== src/Session/Keys.antt =====
-- The names of session cookies: which ones match, and in which order they sort.
use starlite.Prelude.{
  ℕ, zero, suc, ◌+◌, ◌≤◌, ◌<◌, ◌≡◌, refl, sym, ap, ◌∙◌, true, false, List, [], ◌∷◌, ◌++◌, length,
  drop, leb, ◌==◌, nat_Eq, list_Eq, list_eq_iff, arith, Bool-cases, inl, inr,
}
use starlite.Prelude.Dict.{keys, has_key, NodupKeys}
use starlite.Prelude.Text.{Text, starts_with}
use starlite.Prelude.Sorting.{text_le, LeastOf, Sorted}
use starlite.Session.{decimal, numbered, numbered_cookies, matches}

drop-append : (a b : Text) → drop (length a) (a ++ b) ≡ b
drop-append [] b = refl
drop-append (x ∷ xs) b = drop-append xs b

starts_with-append : (a b : Text) → starts_with (a ++ b) a ≡ true
starts_with-append [] b = refl
starts_with-append (x ∷ xs) b = ground (arith, starts_with-append xs b)

starts_with_refl : (a : Text) → starts_with a a ≡ true
starts_with_refl [] = refl
starts_with_refl (x ∷ xs) = ground (arith, starts_with_refl xs)

drop_all : (a : Text) → drop (length a) a ≡ []
drop_all [] = refl
drop_all (x ∷ xs) = drop_all xs

text_le-append : (p a b : Text) → text_le (p ++ a) (p ++ b) ≡ text_le a b
text_le-append [] a b = refl
text_le-append (x ∷ p) a b = ground (arith, text_le-append p a b)

decimal_digit : (i : ℕ) → i ≤ 9 → decimal i i ≡ (48 + i) ∷ []
unfolding decimal
decimal_digit zero h = refl
decimal_digit (suc i) h = let small : leb (suc i) 9 ≡ true = ground arith in rw small

numbered_digit : (key : Text) (i : ℕ) → i ≤ 9 → numbered key i ≡ key ++ b'-' ∷ (48 + i) ∷ []
numbered_digit key i h = ap (λ l. key ++ b'-' ∷ l) (decimal_digit i h)

pub matches_self : (key : Text) → matches key key ≡ true
unfolding matches
matches_self key = rw (starts_with_refl key) (rw (drop_all key))

matches-numbered : (key : Text) (i : ℕ) → i ≤ 9 → matches key (numbered key i) ≡ true
unfolding matches
matches-numbered key i h = rw (numbered_digit key i h) (
    rw (starts_with-append key (b'-' ∷ (48 + i) ∷ []))
      (rw (drop-append key (b'-' ∷ (48 + i) ∷ [])) (ground arith)))

numbered_le :
    (key : Text) (i j : ℕ) → i ≤ j → j ≤ 9 → text_le (numbered key i) (numbered key j) ≡ true
numbered_le key i j h k = rw (numbered_digit key i (omega arith)) (
    rw (numbered_digit key j k)
      (rw (text_le-append key (b'-' ∷ (48 + i) ∷ []) (b'-' ∷ (48 + j) ∷ [])) (ground arith)))

head_or : ℕ → Text → ℕ
head_or n [] = n
head_or n (c ∷ cs) = c

numbered_ne : (key : Text) (i j : ℕ) → i < j → j ≤ 9 → (numbered key j == numbered key i) ≡ false
unfolding head_or
numbered_ne key i j h k = elim (Bool-cases (numbered key j == numbered key i)) [
  | inr other ↦ other
  | inl same ↦
      let e : key ++ b'-' ∷ (48 + j) ∷ [] ≡ key ++ b'-' ∷ (48 + i) ∷ [] =
        sym (numbered_digit key j k)
        ∙ ((list_eq_iff (numbered key j) (numbered key i)).0 same
            ∙ numbered_digit key i (omega arith)) in
      let tails : b'-' ∷ (48 + j) ∷ [] ≡ b'-' ∷ (48 + i) ∷ [] =
        sym (drop-append key (b'-' ∷ (48 + j) ∷ []))
        ∙ (ap (drop (length key)) e ∙ drop-append key (b'-' ∷ (48 + i) ∷ [])) in
      let digits : 48 + j ≡ 48 + i = ap (λ l. head_or 0 (drop 1 l)) tails in absurd (omega arith)
]

-- Of at most ten cookies the names match, differ and are sorted.
pub numbered_cookies-LeastOf :
    (key : Text) (h i : ℕ) (data' : List Text)
    → h ≤ i
    → i + length data' ≤ 10
    → LeastOf (numbered key h) (keys (numbered_cookies key i data'))
unfolding numbered_cookies
numbered_cookies-LeastOf key h i [] le few a m = cc
numbered_cookies-LeastOf key h i (datum ∷ data') le few a m =
    elim (Bool-cases (numbered key i == a)) [
      | inl same ↦
          rw (← (list_eq_iff (numbered key i) a).0 same) (numbered_le key h i le (omega arith))
      | inr other ↦
          numbered_cookies-LeastOf key h (suc i) data' (omega arith) (omega arith) a (rw other at m)
    ]

pub numbered_cookies-Sorted :
    (key : Text) (i : ℕ) (data' : List Text)
    → i + length data' ≤ 10
    → Sorted (keys (numbered_cookies key i data'))
unfolding numbered_cookies
numbered_cookies-Sorted key i [] few = tt
numbered_cookies-Sorted key i (datum ∷ data') few = (
  numbered_cookies-LeastOf key i (suc i) data' (omega arith) (omega arith),
  numbered_cookies-Sorted key (suc i) data' (omega arith),
)

numbered_fresh :
    (key : Text) (h i : ℕ) (data' : List Text)
    → h < i
    → i + length data' ≤ 10
    → has_key (numbered key h) (numbered_cookies key i data') ≡ false
unfolding numbered_cookies
numbered_fresh key h i [] less few = refl
numbered_fresh key h i (datum ∷ data') less few =
    rw (numbered_ne key h i less (omega arith))
      (numbered_fresh key h (suc i) data' (omega arith) (omega arith))

pub numbered_cookies-NodupKeys :
    (key : Text) (i : ℕ) (data' : List Text)
    → i + length data' ≤ 10
    → NodupKeys (numbered_cookies key i data')
unfolding numbered_cookies
numbered_cookies-NodupKeys key i [] few = tt
numbered_cookies-NodupKeys key i (datum ∷ data') few = (
  numbered_fresh key i (suc i) data' (omega arith) (omega arith),
  numbered_cookies-NodupKeys key (suc i) data' (omega arith),
)

abbrev pub AllMatch : Text → List Text → Type 0
AllMatch key [] = Unit
AllMatch key (name ∷ names) = (matches key name ≡ true) × AllMatch key names

pub numbered_cookies-AllMatch :
    (key : Text) (i : ℕ) (data' : List Text)
    → i + length data' ≤ 10
    → AllMatch key (keys (numbered_cookies key i data'))
unfolding numbered_cookies
numbered_cookies-AllMatch key i [] few = tt
numbered_cookies-AllMatch key i (datum ∷ data') few = (
  matches-numbered key i (omega arith),
  numbered_cookies-AllMatch key (suc i) data' (omega arith),
)
