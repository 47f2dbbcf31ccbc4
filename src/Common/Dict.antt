-- ===== src/Common/Dict.antt =====
-- Python's `dict`: pairs in the order in which the keys were first set.
use Prim.Native.Nat.{suc}
use mathlib.Core.Path.{◌≡◌, refl, sym, ap, ◌∙◌}
use mathlib.Core.Logic.{◌⊎◌, inl, inr}
use mathlib.Core.Bool.{true, ◌||◌}
use mathlib.Core.Option.{Option, none, some, some-injective}
use mathlib.Core.List.{List, [], ◌∷◌, ◌++◌}
use native.Mathlib.Omega.{arith}
use oscmix_desk.Common.Tests.{Eq, ◌==◌, if◌then◌else◌, Bool-cases, Option-cases}
use oscmix_desk.Common.Sets.{contains, contains_iff, Distinct}
use oscmix_desk.Common.Lists.{length, In, In-append_left, In-append_right}

abbrev pub Dict : Type 0 → Type 0 → Type 0
Dict K V = List (K × V)

module _ {K V : Type 0} where
  abbrev pub keys : Dict K V → List K
  keys [] = []
  keys ((k, v) ∷ d) = k ∷ keys d

  abbrev pub values : Dict K V → List V
  values [] = []
  values ((k, v) ∷ d) = v ∷ values d

  pub length-keys : (d : Dict K V) → length (keys d) ≡ length d
  length-keys [] = refl
  length-keys ((k, v) ∷ d) = rw (length-keys d)

module _ {K V : Type 0} ⦃e : Eq K⦄ where
  -- `d.get(k)`
  unfoldable pub lookup : K → Dict K V → Option V
  lookup k [] = none
  lookup k ((j, v) ∷ d) = if j == k then some v else lookup k d

  -- `d[k] = v`: a key that is there keeps its place
  unfoldable pub insert : K → V → Dict K V → Dict K V
  insert k v [] = (k, v) ∷ []
  insert k v ((j, w) ∷ d) = if j == k then (j, v) ∷ d else (j, w) ∷ insert k v d

  pub lookup-insert :
      (k j : K) (v : V) (d : Dict K V)
      → lookup j (insert k v d) ≡ (if k == j then some v else lookup j d)
  unfolding lookup insert
  lookup-insert k j v [] = refl
  lookup-insert k j v ((i, w) ∷ d) =
      ground (arith, e.beq_iff k j, e.beq_iff i k, e.beq_iff i j, lookup-insert k j v d)

  pub length-insert :
      (k : K) (v : V) (d : Dict K V)
      → length (insert k v d) ≡ (if contains (keys d) k then length d else suc (length d))
  unfolding insert contains
  length-insert k v [] = refl
  length-insert k v ((j, w) ∷ d) = ground (arith, length-insert k v d)

  pub keys-insert_self : (k : K) (v : V) (d : Dict K V) → In k (keys (insert k v d))
  unfolding insert
  keys-insert_self k v [] = inl refl
  keys-insert_self k v ((j, w) ∷ d) = elim (Bool-cases (j == k)) [
    | inl same ↦ rw same (inl ((e.beq_iff j k).0 same))
    | inr other ↦ rw other (inr (keys-insert_self k v d))
  ]

  pub keys-insert : (k j : K) (v : V) (d : Dict K V) → In j (keys d) → In j (keys (insert k v d))
  unfolding insert
  keys-insert k j v [] h = absurd h
  keys-insert k j v ((i, w) ∷ d) h = elim (Bool-cases (i == k)) [
    | inl same ↦ rw same h
    | inr other ↦
        rw other (elim h [ inl here ↦ inl here | inr later ↦ inr (keys-insert k j v d later) ])
  ]

  pub lookup-insert_self : (k : K) (v : V) (d : Dict K V) → lookup k (insert k v d) ≡ some v
  lookup-insert_self k v d = rw (lookup-insert k k v d) (rw ((e.beq_iff k k).1 refl))

  -- Setting a key to what it holds, or a key that is not there, changes no other value.
  pub lookup-insert_keep :
      (k j : K) (v w : V) (d : Dict K V)
      → (lookup k d ≡ none) ⊎ (lookup k d ≡ some v)
      → lookup j d ≡ some w
      → lookup j (insert k v d) ≡ some w
  lookup-insert_keep k j v w d old h = elim (Bool-cases (k == j)) [
    | inr other ↦ rw (lookup-insert k j v d) (rw other h)
    | inl same ↦
        let found : lookup k d ≡ some w = rw ((e.beq_iff k j).0 same) h in
        rw (lookup-insert k j v d)
          (rw same (elim old [ inl absent ↦ cc | inr present ↦ sym present ∙ found ]))
  ]

  -- A value that is found is one of the values.
  pub lookup-keys : (k : K) (v : V) (d : Dict K V) → lookup k d ≡ some v → In k (keys d)
  unfolding lookup
  lookup-keys k v [] h = cc
  lookup-keys k v ((j, w) ∷ d) h = elim (Bool-cases (j == k)) [
    | inl same ↦ inl ((e.beq_iff j k).0 same)
    | inr other ↦ inr (lookup-keys k v d (rw other at h))
  ]

  pub keys-lookup :
      (k : K) (d : Dict K V) → contains (keys d) k ≡ true → (v : V) × (lookup k d ≡ some v)
  unfolding lookup contains
  keys-lookup k [] h = cc
  keys-lookup k ((j, w) ∷ d) h = elim (Bool-cases (j == k)) [
    | inl same ↦ (w, rw same)
    | inr other ↦ let (v, found) = keys-lookup k d (rw other at h) in (v, rw other found)
  ]

  pub lookup-values : (k : K) (v : V) (d : Dict K V) → lookup k d ≡ some v → In v (values d)
  unfolding lookup
  lookup-values k v [] h = cc
  lookup-values k v ((j, w) ∷ d) h = elim (Bool-cases (j == k)) [
    | inl same ↦ inl (some-injective w v (rw same at h))
    | inr other ↦ inr (lookup-values k v d (rw other at h))
  ]

  contains-keys-insert :
      (k j : K) (v : V) (d : Dict K V)
      → contains (keys (insert k v d)) j ≡ ((k == j) || contains (keys d) j)
  unfolding insert contains
  contains-keys-insert k j v [] = refl
  contains-keys-insert k j v ((i, w) ∷ d) =
      ground (arith, e.beq_iff k j, e.beq_iff i k, e.beq_iff i j, contains-keys-insert k j v d)

  -- A dict holds every key once.
  pub insert-Distinct :
      (k : K) (v : V) (d : Dict K V) → Distinct (keys d) → Distinct (keys (insert k v d))
  unfolding insert contains
  insert-Distinct k v [] h = (refl, tt)
  insert-Distinct k v ((j, w) ∷ d) h = elim (Bool-cases (j == k)) [
    | inl same ↦ rw same h
    | inr other ↦ rw other (
      rw (contains-keys-insert k j v d) (ground (arith, h.0, other, e.beq_iff k j, e.beq_iff j k)),
      insert-Distinct k v d h.1,
    )
  ]

  pub lookup-In : (k : K) (v : V) (d : Dict K V) → lookup k d ≡ some v → In (k, v) d
  unfolding lookup
  lookup-In k v [] h = cc
  lookup-In k v ((j, w) ∷ d) h = elim (Bool-cases (j == k)) [
    | inl same ↦
        let value : w ≡ v = some-injective w v (rw same at h) in
        let key : j ≡ k = (e.beq_iff j k).0 same in inl (cc)
    | inr other ↦ inr (lookup-In k v d (rw other at h))
  ]

  In-keys : (k : K) (v : V) (d : Dict K V) → In (k, v) d → In k (keys d)
  In-keys k v [] m = absurd m
  In-keys k v ((j, w) ∷ d) (inl here) = inl (ap (λ p. p.0) here)
  In-keys k v ((j, w) ∷ d) (inr later) = inr (In-keys k v d later)

  pub Distinct-lookup :
      (k : K) (v w : V) (d : Dict K V)
      → Distinct (keys d)
      → lookup k d ≡ some v
      → In (k, w) d
      → w ≡ v
  unfolding lookup
  Distinct-lookup k v w [] h found m = absurd m
  Distinct-lookup k v w ((j, u) ∷ d) h found m = elim (Bool-cases (j == k)) [
    | inr other ↦ elim m [
      | inl here ↦ let at = (e.beq_iff j k).1 (ap (λ p. p.0) here) in cc
      | inr later ↦ Distinct-lookup k v w d h.1 (rw other at found) later
    ]
    | inl same ↦ elim m [
      | inl here ↦ sym (ap (λ p. p.1) here) ∙ some-injective u v (rw same at found)
      | inr later ↦
          let listed = (contains_iff (keys d) k).1 (In-keys k w d later) in
          cc (rw ((e.beq_iff j k).0 same, listed) at h.0)
    ]
  ]

-- A dict of lists.
module _ {K V : Type 0} ⦃e : Eq K⦄ where
  -- `d.setdefault(k, []).append(v)`
  unfoldable pub append_at : K → V → Dict K (List V) → Dict K (List V)
  append_at k v d = elim (lookup k d) [
    | none ↦ insert k (v ∷ []) d
    | some before ↦ insert k (before ++ v ∷ []) d
  ]

  -- `v` stands in the list at `k`.
  abbrev pub Listed : Dict K (List V) → K → V → Type 0
  Listed d k v = (vs : List V) × (lookup k d ≡ some vs) × In v vs

  pub append_at-Listed : (k : K) (v : V) (d : Dict K (List V)) → Listed (append_at k v d) k v
  unfolding append_at
  append_at-Listed k v d = elim (Option-cases (lookup k d)) [
    | inl absent ↦ (v ∷ [], rw (absent, append_at) (lookup-insert_self k (v ∷ []) d), inl refl)
    | inr (before, found) ↦ (
      before ++ v ∷ [],
      rw (found, append_at) (lookup-insert_self k (before ++ v ∷ []) d),
      In-append_right v before (v ∷ []) (inl refl),
    )
  ]

  pub append_at-Listed_keep :
      (k j : K) (v w : V) (d : Dict K (List V)) → Listed d j w → Listed (append_at k v d) j w
  unfolding append_at
  append_at-Listed_keep k j v w d (ws, at_j, m) = elim (Option-cases (lookup k d)) [
    | inl absent ↦
        (ws, rw (absent, append_at) (lookup-insert_keep k j (v ∷ []) ws d (inl absent) at_j), m)
    | inr (before, found) ↦ elim (Bool-cases (k == j)) [
      | inr other ↦ (
        ws,
        rw (found, append_at) (rw (lookup-insert k j (before ++ v ∷ []) d) (rw other at_j)),
        m,
      )
      | inl same ↦
          let at_k : lookup k d ≡ some ws = rw ((e.beq_iff k j).0 same) at_j in
          let agree : ws ≡ before = some-injective ws before (sym at_k ∙ found) in
          (
            before ++ v ∷ [],
            rw (found, append_at) (rw (lookup-insert k j (before ++ v ∷ []) d) (rw same)),
            In-append_left w before (v ∷ []) (rw agree at m),
          )
    ]
  ]
