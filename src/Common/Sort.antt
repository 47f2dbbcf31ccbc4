-- ===== src/Common/Sort.antt =====
-- Python's `sorted`: stable, by an order given as a test; and `sorted(set(xs))`.
use native.Mathlib.Omega.{arith}
use mathlib.Core.Path.{◌≡◌, refl, sym, ◌∙◌}
use mathlib.Core.Logic.{◌⊎◌, inl, inr, ◌↔◌}
use mathlib.Core.Bool.{Bool, true, false}
use mathlib.Core.List.{List, [], ◌∷◌}
use oscmix_desk.Common.Tests.{if◌then◌else◌, Bool-cases, Eq, ◌==◌}
use oscmix_desk.Common.Lists.{In, All}
use oscmix_desk.Common.Sets.{Distinct, contains, contains_iff, contains_same}

module _ {A : Type 0} (le : A → A → Bool) where
  unfoldable pub insert_sorted : A → List A → List A
  insert_sorted x [] = x ∷ []
  insert_sorted x (y ∷ ys) = if le x y then x ∷ y ∷ ys else y ∷ insert_sorted x ys

  unfoldable pub sort_by : List A → List A
  unfolding insert_sorted
  sort_by [] = []
  sort_by (x ∷ xs) = insert_sorted x (sort_by xs)

  -- Each element comes before those that stand behind it.
  abbrev pub IsSorted : List A → Type 0
  IsSorted [] = Unit {0}
  IsSorted (x ∷ xs) = All (λ y. le x y ≡ true) xs × IsSorted xs

  pub In-insert_sorted : (x a : A) (xs : List A) → In a (insert_sorted x xs) ↔ ((x ≡ a) ⊎ In a xs)
  unfolding insert_sorted
  In-insert_sorted x a [] = (λ h. h, λ h. h)
  In-insert_sorted x a (y ∷ ys) = elim (Bool-cases (le x y)) [
    | inl first ↦ rw first (λ h. h, λ h. h)
    | inr behind ↦
        let (down, up) = In-insert_sorted x a ys in
        rw behind (
          λ h. elim h [
            | inl here ↦ inr (inl here)
            | inr later ↦ elim (down later) [ inl e ↦ inl e | inr m ↦ inr (inr m) ]
          ],
          λ h. elim h [
            | inl e ↦ inr (up (inl e))
            | inr m ↦ elim m [ inl here ↦ inl here | inr later ↦ inr (up (inr later)) ]
          ],
        )
  ]

  -- Sorting keeps the elements.
  pub In-sort_by : (a : A) (xs : List A) → In a (sort_by xs) ↔ In a xs
  unfolding sort_by
  In-sort_by a [] = (λ h. h, λ h. h)
  In-sort_by a (x ∷ xs) =
      let (down, up) = In-sort_by a xs in
      let (out, back) = In-insert_sorted x a (sort_by xs) in
      (
        λ h. elim (out h) [ inl e ↦ inl e | inr m ↦ inr (down m) ],
        λ h. back (elim h [ inl e ↦ inl e | inr m ↦ inr (up m) ]),
      )

  module _ (total : (x y : A) → le x y ≡ false → le y x ≡ true)
      (trans : (x y z : A) → le x y ≡ true → le y z ≡ true → le x z ≡ true) where
    All-insert_sorted :
        (b x : A) (ys : List A)
        → le b x ≡ true
        → All (λ y. le b y ≡ true) ys
        → All (λ y. le b y ≡ true) (insert_sorted x ys)
    unfolding insert_sorted
    All-insert_sorted b x [] h k = (h, tt)
    All-insert_sorted b x (y ∷ ys) h k = elim (Bool-cases (le x y)) [
      | inl first ↦ rw first (h, k)
      | inr behind ↦ rw behind (k.0, All-insert_sorted b x ys h k.1)
    ]

    below :
        (x y : A) (ys : List A)
        → le x y ≡ true
        → All (λ z. le y z ≡ true) ys
        → All (λ z. le x z ≡ true) ys
    below x y [] h k = tt
    below x y (z ∷ zs) h k = (trans x y z h k.0, below x y zs h k.1)

    insert_sorted-IsSorted : (x : A) (xs : List A) → IsSorted xs → IsSorted (insert_sorted x xs)
    unfolding insert_sorted
    insert_sorted-IsSorted x [] h = (tt, tt)
    insert_sorted-IsSorted x (y ∷ ys) h = elim (Bool-cases (le x y)) [
      | inl first ↦ rw first ((first, below x y ys first h.0), h)
      | inr behind ↦
          rw behind
            (All-insert_sorted y x ys (total x y behind) h.0, insert_sorted-IsSorted x ys h.1)
    ]

    pub sort_by-IsSorted : (xs : List A) → IsSorted (sort_by xs)
    unfolding sort_by
    sort_by-IsSorted [] = tt
    sort_by-IsSorted (x ∷ xs) = insert_sorted-IsSorted x (sort_by xs) (sort_by-IsSorted xs)

module _ {A : Type 0} ⦃e : Eq A⦄ where
  -- `set(xs)`, in the order of first appearance from the end
  unfoldable pub dedup : List A → List A
  unfolding contains
  dedup [] = []
  dedup (x ∷ xs) = let rest = dedup xs in if contains rest x then rest else x ∷ rest

  pub In-dedup : (a : A) (xs : List A) → In a (dedup xs) ↔ In a xs
  unfolding dedup
  In-dedup a [] = (λ h. h, λ h. h)
  In-dedup a (x ∷ xs) =
      let (down, up) = In-dedup a xs in
      elim (Bool-cases (contains (dedup xs) x)) [
        | inr fresh ↦ rw fresh (
          λ h. elim h [ inl e ↦ inl e | inr m ↦ inr (down m) ],
          λ h. elim h [ inl e ↦ inl e | inr m ↦ inr (up m) ],
        )
        | inl known ↦ rw known (
          λ h. inr (down h),
          λ h. elim h [ inl e ↦ rw (← e) ((contains_iff (dedup xs) x).0 known) | inr m ↦ up m ],
        )
      ]

module _ {A : Type 0} ⦃e : Eq A⦄ where
  pub contains-sort_by :
      (le : A → A → Bool) (xs : List A) (a : A) → contains (sort_by le xs) a ≡ contains xs a
  contains-sort_by le xs a = contains_same (sort_by le xs) xs a (In-sort_by le a xs)

  contains-insert_sorted :
      (le : A → A → Bool) (x : A) (ys : List A) (a : A)
      → contains (insert_sorted le x ys) a ≡ contains (x ∷ ys) a
  contains-insert_sorted le x ys a =
      contains_same (insert_sorted le x ys) (x ∷ ys) a (In-insert_sorted le x a ys)

  insert_sorted-Distinct :
      (le : A → A → Bool) (x : A) (ys : List A)
      → contains ys x ≡ false
      → Distinct ys
      → Distinct (insert_sorted le x ys)
  unfolding insert_sorted contains
  insert_sorted-Distinct le x [] free h = (refl, tt)
  insert_sorted-Distinct le x (y ∷ ys) free h = elim (Bool-cases (le x y)) [
    | inl first ↦ rw first (free, h)
    | inr behind ↦
        let apart : (x == y) ≡ false = elim (Bool-cases (x == y)) [
          | inr other ↦ other
          | inl same ↦
              let again = (e.beq_iff y x).1 (sym ((e.beq_iff x y).0 same)) in
              ground (arith, free, again)
        ] in
        let later = insert_sorted-Distinct le x ys (ground (arith, free)) h.1 in
        rw behind (contains-insert_sorted le x ys y ∙ ground (arith, apart, h.0), later)
  ]

  pub sort_by-Distinct : (le : A → A → Bool) (xs : List A) → Distinct xs → Distinct (sort_by le xs)
  unfolding sort_by
  sort_by-Distinct le [] h = tt
  sort_by-Distinct le (x ∷ xs) h =
      insert_sorted-Distinct le x (sort_by le xs) (contains-sort_by le xs x ∙ h.0)
        (sort_by-Distinct le xs h.1)
