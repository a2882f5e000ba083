-- ===== src/SchemaRegistry/References.antt =====
-- Where the references of a document point after its components were generated.
use starlite.Prelude.{
  ℕ, ◌<◌, ◌≡◌, ◌≢◌, refl, sym, ap, ◌∙◌, Bool, true, false, ◌⊎◌, inl, inr, some, List, [], ◌∷◌,
  length, contains, Distinct, set, get_elem?, get_elem?-set_self, get_elem?-set_ne, length-set,
  if◌then◌else◌, ◌==◌, nat_Eq, list_Eq, nat_eq_iff, list_eq_iff, beq_refl, Bool-cases, arith,
}
use mathlib.Core.Path.{subst}
use starlite.Prelude.Dict.{Dict, lookup, insert, lookup-insert}
use starlite.Prelude.Text.{Text}
use starlite.SchemaRegistry.{
  SchemaKey, Registry, component_ref, references_of, schema_of, set_reference_paths,
  name_components,
}

-- The names of components.
abbrev pub names_of : List (Text × SchemaKey) → List Text
names_of [] = []
names_of ((name, key) ∷ named) = name ∷ names_of named

-- A key is named, under a name.
abbrev pub HasName : List (Text × SchemaKey) → SchemaKey → Type 0
HasName [] key = ⊥
HasName ((name, k) ∷ named) key = (k ≡ key) ⊎ HasName named key

length-set_reference_paths :
    (name : Text) (references : List ℕ) (refs : List Text)
    → length (set_reference_paths name references refs) ≡ length refs
unfolding set_reference_paths
length-set_reference_paths name [] refs = refl
length-set_reference_paths name (r ∷ references) refs =
    length-set_reference_paths name references (set refs r (component_ref name))
    ∙ length-set refs r (component_ref name)

get_elem?-set_reference_paths :
    (name : Text) (references : List ℕ) (refs : List Text) (r : ℕ)
    → r < length refs
    → get_elem? (set_reference_paths name references refs) r
      ≡ (if contains r references then some (component_ref name) else get_elem? refs r)
unfolding set_reference_paths
get_elem?-set_reference_paths name [] refs r h = refl
get_elem?-set_reference_paths name (s ∷ references) refs r h =
    let ih =
      get_elem?-set_reference_paths name references (set refs s (component_ref name)) r
        (rw (length-set refs s (component_ref name)) h) in
    elim (Bool-cases (s == r)) [
      | inl same ↦
          let e : s ≡ r = (nat_eq_iff s r).0 same in
          let self : get_elem? (set refs s (component_ref name)) r ≡ some (component_ref name) =
            rw e (get_elem?-set_self refs r (component_ref name) h) in
          rw same
            (rw ih (elim (Bool-cases (contains r references)) [ inl m ↦ rw m | inr m ↦ rw m self ]))
      | inr other ↦
          let apart : s ≢ r = ground (arith, nat_eq_iff s r) in
          rw other (rw ih (rw (get_elem?-set_ne refs s r (component_ref name) apart)))
    ]

-- The `ref` of a reference, after the components were named.
abbrev pub RefTo : List Text → ℕ → Text → Type 0
RefTo refs reference name = get_elem? refs reference ≡ some (component_ref name)

-- One reference of one registered key.
module _ (r : ℕ) (key : SchemaKey) (schema : ℕ) where
  -- The reference is among those of its key, and of no other.
  pub record IsOf (registry : Registry) : Type 0 where
    pub present : r < length registry.refs
    pub its_schema : schema_of (lookup key registry.schema_key_map) ≡ schema
    pub held : contains r (references_of (lookup key registry.schema_key_map)) ≡ true
    pub alone :
        (other : SchemaKey)
        → contains r (references_of (lookup other registry.schema_key_map)) ≡ true
        → other ≡ key

  -- The reference points at a component of its key's schema.
  abbrev pub Points : List Text → Dict Text ℕ → Text → Type 0
  Points refs components name = RefTo refs r name × (lookup name components ≡ some schema)

  -- One name more.
  abbrev next_registry : Text → SchemaKey → Registry → Registry
  next_registry name k registry = record registry {
    refs =
        set_reference_paths name (references_of (lookup k registry.schema_key_map)) registry.refs;
  }

  abbrev next_components : Text → SchemaKey → Registry → Dict Text ℕ → Dict Text ℕ
  next_components name k registry components =
      insert name (schema_of (lookup k registry.schema_key_map)) components

  next-IsOf :
      (name : Text) (k : SchemaKey) (registry : Registry)
      → IsOf registry
      → IsOf (next_registry name k registry)
  next-IsOf name k registry of = record {
    present =
        rw
          (length-set_reference_paths name (references_of (lookup k registry.schema_key_map))
            registry.refs)
          of.present;
    its_schema = of.its_schema;
    held = of.held;
    alone = of.alone;
  }

  named_now :
      (name : Text) (registry : Registry) (components : Dict Text ℕ)
      → IsOf registry
      → Points
          (next_registry name key registry).refs
          (next_components name key registry components)
          name
  named_now name registry components of = (
    get_elem?-set_reference_paths name (references_of (lookup key registry.schema_key_map))
          registry.refs r of.present
        ∙ rw of.held refl,
    lookup-insert name name (schema_of (lookup key registry.schema_key_map)) components
        ∙ rw (beq_refl name) (ap some of.its_schema),
  )

  named_before :
      (name n : Text) (k : SchemaKey) (registry : Registry) (components : Dict Text ℕ)
      → IsOf registry
      → (k == key) ≡ false
      → (name == n) ≡ false
      → Points registry.refs components n
      → Points (next_registry name k registry).refs (next_components name k registry components) n
  named_before name n k registry components of other apart (points, holds) =
      let not_its : contains r (references_of (lookup k registry.schema_key_map)) ≡ false =
        elim (Bool-cases (contains r (references_of (lookup k registry.schema_key_map)))) [
          | inr m ↦ m
          | inl m ↦
              let e : k ≡ key = of.alone k m in
              let bad : (k == key) ≡ true = (list_eq_iff k key).1 e in ground arith
        ] in
      (
        get_elem?-set_reference_paths name (references_of (lookup k registry.schema_key_map))
              registry.refs r of.present
            ∙ rw not_its points,
        lookup-insert n name (schema_of (lookup k registry.schema_key_map)) components
            ∙ rw apart holds,
      )

  pub name_components-Points :
      (named : List (Text × SchemaKey)) (registry : Registry) (components : Dict Text ℕ)
      → IsOf registry
      → Distinct (names_of named)
      → ((n : Text) × Points registry.refs components n × (contains n (names_of named) ≡ false))
        ⊎ HasName named key
      → (n : Text) × Points
          (name_components named registry components).0.refs
          (name_components named registry components).1
          n
  unfolding name_components
  name_components-Points [] registry components of distinct (inl (n, points, _)) = (n, points)
  name_components-Points [] registry components of distinct (inr h) = absurd h
  name_components-Points ((name, k) ∷ named) registry components of (fresh, distinct) h =
      elim (Bool-cases (k == key)) [
        | inl same ↦
            let e : k ≡ key = (list_eq_iff k key).0 same in
            name_components-Points named _ _ (next-IsOf name k registry of) distinct (
              inl (
                name,
                subst
                    (λ j.
                      Points (next_registry name j registry).refs
                        (next_components name j registry components) name)
                    (sym e) (named_now name registry components of),
                fresh,
              ))
        | inr other ↦
            name_components-Points named _ _ (next-IsOf name k registry of) distinct (elim h [
              | inl (n, points, unnamed) ↦
                  let apart : (name == n) ≡ false = ground arith in
                  inl (
                    n,
                    named_before name n k registry components of other apart points,
                    ground arith,
                  )
              | inr (inl e) ↦
                  let bad : (k == key) ≡ true = (list_eq_iff k key).1 e in
                  absurd (let f : ◌≡◌ {A = Bool} true false = sym bad ∙ other in cc)
              | inr (inr later) ↦ inr later
            ])
      ]
