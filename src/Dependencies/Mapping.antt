-- ===== src/Dependencies/Mapping.antt =====
-- What `map_dependencies_recursively` makes of dependencies that are not circular.
use starlite.Prelude.{
  ℕ, ◌<◌, ◌≡◌, true, ◌⊎◌, inl, inr, some, List, contains, if◌then◌else◌, list_Eq, nat_Eq, ◌==◌,
  arith, Bool-cases, list_eq_iff, beq_refl,
}
use starlite.Prelude.Dict.{
  lookup, insert, has_key, lookup-insert, has_key-insert, NodupKeys, insert-NodupKeys,
}
use starlite.Prelude.Text.{Text}
use starlite.Dependencies.{
  Dependency, Dependencies, depends, nil, cons, key_of, keys_of, Waiting,
  map_dependencies_recursively, map_all,
}

-- A rank by which every dependency stands above the ones it depends on.
unfoldable mutual
  pub Ranked : (Text → ℕ) → Dependency → Type 0
  Ranked rank (depends key dependencies) = Below rank (rank key) dependencies

  pub Below : (Text → ℕ) → ℕ → Dependencies → Type 0
  Below rank n nil = Unit
  Below rank n (cons dependency rest) =
      (rank (key_of dependency) < n) × Ranked rank dependency × Below rank n rest

abbrev pub AllRanked : (Text → ℕ) → Dependencies → Type 0
AllRanked rank nil = Unit
AllRanked rank (cons dependency rest) = Ranked rank dependency × AllRanked rank rest

-- All that a dependency waits for is mapped, and of a lower rank.
abbrev pub Supported : (Text → ℕ) → Waiting → Text → List Text → Type 0
Supported rank waiting key remaining =
    (sub : Text)
    → contains sub remaining ≡ true
    → (has_key sub waiting ≡ true) × (rank sub < rank key)

-- What mapping adds: every new entry is supported, and no key is lost.
pub record Maps (rank : Text → ℕ) (before after : Waiting) : Type 0 where
  pub grows : (key : Text) → has_key key before ≡ true → has_key key after ≡ true
  pub new :
      (key : Text) (remaining : List Text)
      → lookup key after ≡ some remaining
      → (lookup key before ≡ some remaining) ⊎ Supported rank after key remaining

Maps-refl : (rank : Text → ℕ) (waiting : Waiting) → Maps rank waiting waiting
Maps-refl rank waiting = record { grows = λ key h. h; new = λ key remaining h. inl h }

Maps-trans : (rank : Text → ℕ) (a b c : Waiting) → Maps rank a b → Maps rank b c → Maps rank a c
Maps-trans rank a b c f g = record {
  grows = λ key h. g.grows key (f.grows key h);
  new = λ key remaining h. elim (g.new key remaining h) [
    | inr s ↦ inr s
    | inl e ↦ elim (f.new key remaining e) [
      | inl e' ↦ inl e'
      | inr s ↦ inr (λ sub m. (g.grows sub (s sub m).0, (s sub m).1))
    ]
  ];
}

Below-AllRanked :
    (rank : Text → ℕ) (n : ℕ) (dependencies : Dependencies)
    → Below rank n dependencies
    → AllRanked rank dependencies
unfolding Ranked Below
Below-AllRanked rank n nil h = tt
Below-AllRanked rank n (cons dependency rest) (less, ranked, below) =
    (ranked, Below-AllRanked rank n rest below)

Below-rank :
    (rank : Text → ℕ) (n : ℕ) (dependencies : Dependencies) (sub : Text)
    → Below rank n dependencies
    → contains sub (keys_of dependencies) ≡ true
    → rank sub < n
unfolding Below
Below-rank rank n nil sub h m = cc
Below-rank rank n (cons dependency rest) sub (less, ranked, below) m =
    elim (Bool-cases (key_of dependency == sub)) [
      | inl same ↦
          let e : key_of dependency ≡ sub = (list_eq_iff (key_of dependency) sub).0 same in
          rw (← e) less
      | inr other ↦ Below-rank rank n rest sub below (ground arith)
    ]

insert-Maps :
    (rank : Text → ℕ) (key : Text) (dependencies : Dependencies) (before after : Waiting)
    → Below rank (rank key) dependencies
    → Maps rank (insert key (keys_of dependencies) before) after
    → ((sub : Text) → contains sub (keys_of dependencies) ≡ true → has_key sub after ≡ true)
    → Maps rank before after
insert-Maps rank key dependencies before after below maps all = record {
  grows = λ k h. maps.grows k (ground (arith, has_key-insert k key (keys_of dependencies) before));
  new = λ k remaining h. go k remaining (maps.new k remaining h);
}
  where
    go :
        (k : Text) (remaining : List Text)
        → (lookup k (insert key (keys_of dependencies) before) ≡ some remaining)
          ⊎ Supported rank after k remaining
        → (lookup k before ≡ some remaining) ⊎ Supported rank after k remaining
    go k remaining (inr s) = inr s
    go k remaining (inl e) = elim (Bool-cases (key == k)) [
      | inl same ↦
          let equal : key ≡ k = (list_eq_iff key k).0 same in
          let its : keys_of dependencies ≡ remaining =
            ground (arith, lookup-insert k key (keys_of dependencies) before) in
          inr (λ sub m.
            let m' : contains sub (keys_of dependencies) ≡ true = rw its m in
            (all sub m', rw (← equal) (Below-rank rank (rank key) dependencies sub below m')))
      | inr other ↦ inl (ground (arith, lookup-insert k key (keys_of dependencies) before))
    ]

chosen-Maps :
    (rank : Text → ℕ) (key : Text) (waiting mapped : Waiting)
    → Maps rank waiting mapped × (has_key key mapped ≡ true)
    → let next = if has_key key waiting then waiting else mapped in
      Maps rank waiting next × (has_key key next ≡ true)
chosen-Maps rank key waiting mapped h = elim (Bool-cases (has_key key waiting)) [
  | inl known ↦ rw known (Maps-refl rank waiting, known)
  | inr new ↦ rw new h
]

mutual
  unfolding map_dependencies_recursively map_all Ranked Below

  pub map-Maps :
      (rank : Text → ℕ) (dependency : Dependency) (waiting : Waiting)
      → Ranked rank dependency
      → Maps rank waiting (map_dependencies_recursively dependency waiting)
        × (has_key (key_of dependency) (map_dependencies_recursively dependency waiting) ≡ true)
  map-Maps rank (depends key dependencies) waiting ranked =
      let (maps, all) =
        map_all-Maps rank dependencies (insert key (keys_of dependencies) waiting)
          (Below-AllRanked rank (rank key) dependencies ranked) in
      (
        insert-Maps rank key dependencies waiting _ ranked maps all,
        maps.grows key
            (rw (has_key-insert key key (keys_of dependencies) waiting) (rw (beq_refl key))),
      )

  pub map_all-Maps :
      (rank : Text → ℕ) (dependencies : Dependencies) (waiting : Waiting)
      → AllRanked rank dependencies
      → Maps rank waiting (map_all dependencies waiting)
        × ((sub : Text)
            → contains sub (keys_of dependencies) ≡ true
            → has_key sub (map_all dependencies waiting) ≡ true)
  map_all-Maps rank nil waiting ranked = (Maps-refl rank waiting, λ sub m. cc)
  map_all-Maps rank (cons dependency rest) waiting (ranked, all_ranked) =
      let key = key_of dependency in
      let mapped = map_dependencies_recursively dependency waiting in
      let next = if has_key key waiting then waiting else mapped in
      let (maps, known) =
        chosen-Maps rank key waiting mapped (map-Maps rank dependency waiting ranked) in
      let (maps', all) = map_all-Maps rank rest next all_ranked in
      (
        Maps-trans rank waiting next (map_all rest next) maps maps',
        λ sub m. elim (Bool-cases (key == sub)) [
          | inl same ↦
              let e : key ≡ sub = (list_eq_iff key sub).0 same in rw (← e) (maps'.grows key known)
          | inr other ↦ all sub (ground arith)
        ],
      )

mutual
  unfolding map_dependencies_recursively map_all

  map-NodupKeys :
      (dependency : Dependency) (waiting : Waiting)
      → NodupKeys waiting
      → NodupKeys (map_dependencies_recursively dependency waiting)
  map-NodupKeys (depends key dependencies) waiting h =
      map_all-NodupKeys dependencies (insert key (keys_of dependencies) waiting)
        (insert-NodupKeys key (keys_of dependencies) waiting h)

  pub map_all-NodupKeys :
      (dependencies : Dependencies) (waiting : Waiting)
      → NodupKeys waiting
      → NodupKeys (map_all dependencies waiting)
  map_all-NodupKeys nil waiting h = h
  map_all-NodupKeys (cons dependency rest) waiting h =
      map_all-NodupKeys rest _ (elim (Bool-cases (has_key (key_of dependency) waiting)) [
        | inl known ↦ rw known h
        | inr new ↦ rw new (map-NodupKeys dependency waiting h)
      ])
