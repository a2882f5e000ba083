-- ===== src/SchemaRegistry/Prefix.antt =====
-- `_longest_common_prefix` and `SchemaRegistry.remove_common_prefix`.
use starlite.Prelude.{
  ◌≡◌, ◌↔◌, refl, sym, ◌∙◌, true, inl, inr, List, [], ◌∷◌, length, contains, drop, ◌==◌, nat_Eq,
  list_Eq, list_eq_iff, Bool-cases, beq_refl, arith,
}
use starlite.SchemaRegistry.{SchemaKey, shorten, shorten_all, longest_common_prefix}

-- `key[:len(prefix)] == prefix`
abbrev pub Prefixes : SchemaKey → SchemaKey → Type 0
Prefixes [] key = Unit
Prefixes (part ∷ prefix) [] = ⊥
Prefixes (part ∷ prefix) (other ∷ key) = (part ≡ other) × Prefixes prefix key

abbrev pub PrefixesAll : SchemaKey → List SchemaKey → Type 0
PrefixesAll prefix group = (key : SchemaKey) → contains key group ≡ true → Prefixes prefix key

Prefixes-shorten :
    (q prefix key : SchemaKey)
    → Prefixes q (shorten prefix key) ↔ (Prefixes q prefix × Prefixes q key)
unfolding shorten
Prefixes-shorten [] prefix key = (λ _. (tt, tt), λ _. tt)
Prefixes-shorten (a ∷ q) [] key = (λ h. absurd h, λ h. absurd h.0)
Prefixes-shorten (a ∷ q) (b ∷ prefix) [] = (λ h. absurd h, λ h. absurd h.1)
Prefixes-shorten (a ∷ q) (b ∷ prefix) (c ∷ key) = elim (Bool-cases (b == c)) [
  | inl same ↦
      let e = (list_eq_iff b c).0 same in
      let ih = Prefixes-shorten q prefix key in
      rw same
        (λ h. ((h.0, (ih.0 h.1).0), (h.0 ∙ e, (ih.0 h.1).1)), λ h. (h.0.0, ih.1 (h.0.1, h.1.1)))
  | inr other ↦ rw other (
    λ h. absurd h,
    λ h. let same = (list_eq_iff b c).1 (sym h.0.0 ∙ h.1.0) in absurd (ground arith),
  )
]

Prefixes-shorten_all :
    (q prefix : SchemaKey) (group : List SchemaKey)
    → Prefixes q (shorten_all prefix group) ↔ (Prefixes q prefix × PrefixesAll q group)
unfolding shorten_all
Prefixes-shorten_all q prefix [] = (λ h. (h, λ k m. cc), λ h. h.0)
Prefixes-shorten_all q prefix (key ∷ group) =
    let ih = Prefixes-shorten_all q (shorten prefix key) group in
    let step = Prefixes-shorten q prefix key in
    (
      λ h. (
        (step.0 (ih.0 h).0).0,
        λ k m. elim (Bool-cases (key == k)) [
          | inl same ↦ rw (← (list_eq_iff key k).0 same) (step.0 (ih.0 h).0).1
          | inr other ↦ (ih.0 h).1 k (ground arith)
        ],
      ),
      λ h. ih.1 (step.1 (h.0, h.1 key (rw (beq_refl key) refl)), λ k m. h.1 k (ground arith)),
    )

-- The common prefix of a group that is not empty is the longest one: the prefixes of it are exactly
-- the prefixes that all keys of the group have.
pub longest_common_prefix-Prefixes :
    (q key : SchemaKey) (group : List SchemaKey)
    → Prefixes q (longest_common_prefix (key ∷ group)) ↔ PrefixesAll q (key ∷ group)
unfolding longest_common_prefix
longest_common_prefix-Prefixes q key group =
    let h = Prefixes-shorten_all q key (key ∷ group) in
    (λ p. (h.0 p).1, λ p. h.1 (p key (rw (beq_refl key) refl), p))

Prefixes-refl : (key : SchemaKey) → Prefixes key key
Prefixes-refl [] = tt
Prefixes-refl (part ∷ key) = (refl, Prefixes-refl key)

drop_injective :
    (prefix a b : SchemaKey)
    → Prefixes prefix a
    → Prefixes prefix b
    → drop (length prefix) a ≡ drop (length prefix) b
    → a ≡ b
drop_injective [] a b p q e = e
drop_injective (part ∷ prefix) [] b p q e = absurd p
drop_injective (part ∷ prefix) (x ∷ a) [] p q e = absurd q
drop_injective (part ∷ prefix) (x ∷ a) (y ∷ b) (p, ps) (q, qs) e =
    let ih = drop_injective prefix a b ps qs e in cc

-- Removing the common prefix of a group keeps its keys apart.
pub drop-longest_common_prefix :
    (key : SchemaKey) (group : List SchemaKey) (a b : SchemaKey)
    → contains a (key ∷ group) ≡ true
    → contains b (key ∷ group) ≡ true
    → drop (length (longest_common_prefix (key ∷ group))) a
      ≡ drop (length (longest_common_prefix (key ∷ group))) b
    → a ≡ b
drop-longest_common_prefix key group a b in_a in_b e =
    let prefix = longest_common_prefix (key ∷ group) in
    let all = (longest_common_prefix-Prefixes prefix key group).0 (Prefixes-refl prefix) in
    drop_injective prefix a b (all a in_a) (all b in_b) e
