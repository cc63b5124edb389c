-- ===== src/Text/Version/Sorting.antt =====
-- `sorted(set(versions), key=version_key)`: a stable sort by insertion, whose keys are computed
-- first, so that a malformed version raises before anything is compared.
use chromium_compile.Prelude.{
  String, true, ◌≡◌, refl, ◌||◌, ◌==◌, List, [], ◌∷◌, arith, All, if◌then◌else◌, mem, to_set,
  mem-to_set, Bool-cases, inl, inr, subst, ap, ◌∙◌,
}
use chromium_compile.Result.{Result, ok, ◌>>=◌, and_then-eq-ok, ok-injective}
use chromium_compile.Text.Version.{Key, version_key, key_ltb, key_leb}
use chromium_compile.Text.Version.Order.{key_leb_trans, key_leb_of_ltb, key_leb_of_not_ltb}

pub record Entry : Type 0 where
  pub name : String
  pub key : Key

unfoldable pub names : List Entry → List String
names [] = []
names (e ∷ es) = e.name ∷ names es

unfoldable pub keyed : List String → Result (List Entry)
keyed [] = ok []
keyed (v ∷ vs) = do k ← version_key v; es ← keyed vs; ok (record { name = v; key = k } ∷ es)

unfoldable pub insert_entry : Entry → List Entry → List Entry
insert_entry e [] = e ∷ []
insert_entry e (x ∷ xs) =
    let rest = insert_entry e xs in if key_ltb x.key e.key then x ∷ rest else e ∷ x ∷ xs

unfoldable pub sort_entries : List Entry → List Entry
unfolding insert_entry
sort_entries [] = []
sort_entries (e ∷ es) = insert_entry e (sort_entries es)

-- `sorted(set(versions), key=version_key)`
unfoldable pub sorted_versions : List String → Result (List Entry)
unfolding keyed sort_entries
sorted_versions versions = do es ← keyed (to_set versions); ok (sort_entries es)

abbrev pub IsKeyed : Entry → Type 0
IsKeyed e = version_key e.name ≡ ok e.key

abbrev pub IsSorted : List Entry → Type 0
IsSorted [] = Unit
IsSorted (x ∷ xs) = All (λ y. key_leb x.key y.key ≡ true) xs × IsSorted xs

pub keyed-names :
    (vs : List String) (es : List Entry) → keyed vs ≡ ok es → (names es ≡ vs) × All IsKeyed es
unfolding keyed names
keyed-names [] es h = ground arith
keyed-names (v ∷ vs) es h =
    let (k, p, h₁) = and_then-eq-ok (version_key v) _ _ h in
    let (rest, q, h₂) = and_then-eq-ok (keyed vs) _ _ h₁ in
    let ih = keyed-names vs rest q in
    subst (λ es. (names es ≡ v ∷ vs) × All IsKeyed es) (ok-injective _ _ h₂)
      (ap (λ ns. v ∷ ns) ih.0, (p, ih.1))

All-leb_trans :
    (k l : Key) (xs : List Entry)
    → key_leb k l ≡ true
    → All (λ y. key_leb l y.key ≡ true) xs
    → All (λ y. key_leb k y.key ≡ true) xs
All-leb_trans k l [] h p = tt
All-leb_trans k l (x ∷ xs) h (p, q) = (key_leb_trans k l x.key h p, All-leb_trans k l xs h q)

module _ (e : Entry) where
  All-insert_entry {κ} :
      (P : Entry → Type κ) (xs : List Entry) → P e → All P xs → All P (insert_entry e xs)
  unfolding insert_entry
  All-insert_entry P [] p h = (p, tt)
  All-insert_entry P (x ∷ xs) p (q, h) = elim (Bool-cases (key_ltb x.key e.key)) [
    | inl b ↦ rw b (q, All-insert_entry P xs p h)
    | inr b ↦ rw b (p, (q, h))
  ]

  mem-insert_entry :
      (v : String) (xs : List Entry)
      → mem v (names (insert_entry e xs)) ≡ ((e.name == v) || mem v (names xs))
  unfolding insert_entry names mem
  mem-insert_entry v [] = refl
  mem-insert_entry v (x ∷ xs) = ground (arith, mem-insert_entry v xs)

  insert_entry-IsSorted : (xs : List Entry) → IsSorted xs → IsSorted (insert_entry e xs)
  unfolding insert_entry
  insert_entry-IsSorted [] h = (tt, tt)
  insert_entry-IsSorted (x ∷ xs) (p, h) = elim (Bool-cases (key_ltb x.key e.key)) [
    | inl b ↦ rw b (
      All-insert_entry (λ y. key_leb x.key y.key ≡ true) xs (key_leb_of_ltb x.key e.key b) p,
      insert_entry-IsSorted xs h,
    )
    | inr b ↦
        let le = key_leb_of_not_ltb e.key x.key b in
        rw b ((le, All-leb_trans e.key x.key xs le p), (p, h))
  ]

sort_entries-IsSorted : (es : List Entry) → IsSorted (sort_entries es)
unfolding sort_entries
sort_entries-IsSorted [] = tt
sort_entries-IsSorted (e ∷ es) =
    insert_entry-IsSorted e (sort_entries es) (sort_entries-IsSorted es)

All-sort_entries {κ} : (P : Entry → Type κ) (es : List Entry) → All P es → All P (sort_entries es)
unfolding sort_entries
All-sort_entries P [] h = tt
All-sort_entries P (e ∷ es) (p, h) =
    All-insert_entry e P (sort_entries es) p (All-sort_entries P es h)

mem-sort_entries :
    (v : String) (es : List Entry) → mem v (names (sort_entries es)) ≡ mem v (names es)
unfolding sort_entries names mem
mem-sort_entries v [] = refl
mem-sort_entries v (e ∷ es) =
    mem-insert_entry e v (sort_entries es) ∙ ap (λ b. (e.name == v) || b) (mem-sort_entries v es)

-- What the sort yields: the given versions and no others, with their keys, in order.
pub record IsSortOf (versions : List String) (es : List Entry) : Type 0 where
  pub ordered : IsSorted es
  pub keys : All IsKeyed es
  pub same : (v : String) → mem v (names es) ≡ mem v versions

pub sorted_versions-IsSortOf :
    (versions : List String) (es : List Entry)
    → sorted_versions versions ≡ ok es
    → IsSortOf versions es
unfolding sorted_versions
sorted_versions-IsSortOf versions es h =
    let (raw, p, q) = and_then-eq-ok (keyed (to_set versions)) _ _ h in
    let (same, keys) = keyed-names (to_set versions) raw p in
    subst (IsSortOf versions) (ok-injective _ _ q) (record {
      ordered = sort_entries-IsSorted raw;
      keys = All-sort_entries IsKeyed raw keys;
      same = λ v. mem-sort_entries v raw ∙ (ap (mem v) same ∙ mem-to_set v versions);
    })
