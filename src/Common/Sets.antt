-- ===== src/Common/Sets.antt =====
-- Python's sets, tuples and tests of membership, over lists.
use Prim.Native.Nat.{◌≤◌, ◌<◌}
use mathlib.Core.Path.{◌≡◌, refl}
use mathlib.Core.Logic.{◌↔◌, inl, inr}
use mathlib.Core.Bool.{Bool, true, false, ◌&&◌, ◌||◌, not}
use mathlib.Core.List.{List, [], ◌∷◌, ◌++◌}
use native.Mathlib.Omega.{arith}
use oscmix_desk.Common.Tests.{Eq, ◌==◌, if◌then◌else◌, Bool-cases}
use oscmix_desk.Common.Lists.{In, length}

module _ {A : Type 0} ⦃e : Eq A⦄ where
  -- `a in xs`
  unfoldable pub contains : List A → A → Bool
  contains [] a = false
  contains (x ∷ xs) a = (x == a) || contains xs a

  -- `set(xs) & set(ys)`, as a truth value
  unfoldable pub intersects : List A → List A → Bool
  unfolding contains
  intersects [] ys = false
  intersects (x ∷ xs) ys = contains ys x || intersects xs ys

  -- `set(xs) <= set(ys)`
  unfoldable pub is_subset : List A → List A → Bool
  unfolding contains
  is_subset [] ys = true
  is_subset (x ∷ xs) ys = contains ys x && is_subset xs ys

  -- `set(xs) == set(ys)`
  unfoldable pub same_set : List A → List A → Bool
  unfolding is_subset
  same_set xs ys = is_subset xs ys && is_subset ys xs

  -- `xs.add(a)`, `xs.discard(a)`, `xs - ys`
  unfoldable pub add : A → List A → List A
  unfolding contains
  add a xs = if contains xs a then xs else a ∷ xs

  unfoldable pub discard : A → List A → List A
  discard a [] = []
  discard a (x ∷ xs) = let rest = discard a xs in if x == a then rest else x ∷ rest

  unfoldable pub difference : List A → List A → List A
  unfolding contains
  difference [] ys = []
  difference (x ∷ xs) ys = let rest = difference xs ys in if contains ys x then rest else x ∷ rest

  abbrev pub list_beq : List A → List A → Bool
  list_beq [] [] = true
  list_beq [] (_ ∷ _) = false
  list_beq (_ ∷ _) [] = false
  list_beq (x ∷ xs) (y ∷ ys) = (x == y) && list_beq xs ys

  list_beq_sound : (xs ys : List A) → list_beq xs ys ≡ true → xs ≡ ys
  list_beq_sound [] [] h = refl
  list_beq_sound [] (_ ∷ _) h = cc
  list_beq_sound (_ ∷ _) [] h = cc
  list_beq_sound (x ∷ xs) (y ∷ ys) h = ground (arith, e.beq_iff x y, list_beq_sound xs ys)

  list_beq_refl : (xs : List A) → list_beq xs xs ≡ true
  list_beq_refl [] = refl
  list_beq_refl (x ∷ xs) = ground (arith, e.beq_iff x x, list_beq_refl xs)

  pub list_beq_iff : (xs ys : List A) → (list_beq xs ys ≡ true) ↔ (xs ≡ ys)
  list_beq_iff xs ys = (list_beq_sound xs ys, λ h. rw h (list_beq_refl ys))

  pub contains_iff : (xs : List A) (a : A) → (contains xs a ≡ true) ↔ In a xs
  unfolding contains
  contains_iff xs a = (sound xs, complete xs)
    where
      sound : (xs : List A) → contains xs a ≡ true → In a xs
      sound [] h = cc
      sound (x ∷ xs) h = elim (Bool-cases (x == a)) [
        | inl same ↦ inl ((e.beq_iff x a).0 same)
        | inr other ↦ inr (sound xs (rw other at h))
      ]

      complete : (xs : List A) → In a xs → contains xs a ≡ true
      complete [] h = absurd h
      complete (x ∷ xs) (inl same) = rw ((e.beq_iff x a).1 same)
      complete (x ∷ xs) (inr later) = ground (arith, complete xs later)

instance abbrev pub List_eq : {A : Type 0} ⦃e : Eq A⦄ → Eq (List A)
List_eq ⦃e⦄ = record { beq = list_beq; beq_iff = list_beq_iff }

module _ {A : Type 0} ⦃e : Eq A⦄ where
  pub is_subset-In : (xs ys : List A) (a : A) → is_subset xs ys ≡ true → In a xs → In a ys
  unfolding is_subset
  is_subset-In [] ys a h m = absurd m
  is_subset-In (x ∷ xs) ys a h m = elim (Bool-cases (contains ys x)) [
    | inr missing ↦ cc (rw missing at h)
    | inl found ↦ elim m [
      | inl same ↦ rw (← same) ((contains_iff ys x).0 found)
      | inr later ↦ is_subset-In xs ys a (rw found at h) later
    ]
  ]

  pub is_subset_intro :
      (xs ys : List A) → ((a : A) → In a xs → contains ys a ≡ true) → is_subset xs ys ≡ true
  unfolding is_subset
  is_subset_intro [] ys h = refl
  is_subset_intro (x ∷ xs) ys h = rw (h x (inl refl)) (is_subset_intro xs ys (λ a m. h a (inr m)))

  pub contains_add : (a b : A) (xs : List A) → contains (add a xs) b ≡ ((a == b) || contains xs b)
  unfolding add contains
  contains_add a b xs = elim (Bool-cases (contains xs a)) [
    | inr absent ↦ rw absent
    | inl present ↦ elim (Bool-cases (a == b)) [
      | inr other ↦ rw (present, other)
      | inl same ↦ rw (present, same) (rw ((e.beq_iff a b).0 same) at present)
    ]
  ]

  pub contains-discard :
      (a b : A) (xs : List A) → contains (discard a xs) b ≡ (not (a == b) && contains xs b)
  unfolding discard contains
  contains-discard a b [] = ground arith
  contains-discard a b (x ∷ xs) =
      ground (arith, e.beq_iff x a, e.beq_iff a b, e.beq_iff x b, contains-discard a b xs)

  pub contains-difference :
      (xs ys : List A) (a : A)
      → contains (difference xs ys) a ≡ (contains xs a && not (contains ys a))
  unfolding difference contains
  contains-difference [] ys a = refl
  contains-difference (x ∷ xs) ys a = elim (Bool-cases (x == a)) [
    | inr other ↦ ground (arith, other, contains-difference xs ys a)
    | inl same ↦
        let at_a : contains ys x ≡ contains ys a = rw ((e.beq_iff x a).0 same) refl in
        ground (arith, same, at_a, contains-difference xs ys a)
  ]

  pub contains-append :
      (xs ys : List A) (a : A) → contains (xs ++ ys) a ≡ (contains xs a || contains ys a)
  unfolding contains
  contains-append [] ys a = refl
  contains-append (x ∷ xs) ys a = ground (arith, contains-append xs ys a)

  pub contains_same : (xs ys : List A) (a : A) → (In a xs ↔ In a ys) → contains xs a ≡ contains ys a
  contains_same xs ys a h = ground (arith, contains_iff xs a, contains_iff ys a, h)

  -- No element stands twice.
  abbrev pub Distinct : List A → Type 0
  Distinct [] = Unit
  Distinct (x ∷ xs) = (contains xs x ≡ false) × Distinct xs

  pub add-Distinct : (a : A) (xs : List A) → Distinct xs → Distinct (add a xs)
  unfolding add
  add-Distinct a xs h = elim (Bool-cases (contains xs a)) [
    | inl present ↦ rw present h
    | inr absent ↦ rw absent (absent, h)
  ]

  pub difference-Distinct : (ys xs : List A) → Distinct xs → Distinct (difference xs ys)
  unfolding difference
  difference-Distinct ys [] h = tt
  difference-Distinct ys (x ∷ xs) h = elim (Bool-cases (contains ys x)) [
    | inl present ↦ rw present (difference-Distinct ys xs h.1)
    | inr absent ↦
        rw absent
          (rw (contains-difference xs ys x, h.0) (ground arith), difference-Distinct ys xs h.1)
  ]

  pub discard-Distinct : (a : A) (xs : List A) → Distinct xs → Distinct (discard a xs)
  unfolding discard
  discard-Distinct a [] h = tt
  discard-Distinct a (x ∷ xs) h = elim (Bool-cases (x == a)) [
    | inl same ↦ rw same (discard-Distinct a xs h.1)
    | inr other ↦
        rw other (rw (contains-discard a x xs, h.0) (ground arith), discard-Distinct a xs h.1)
  ]

  length-discard_le : (a : A) (xs : List A) → length (discard a xs) ≤ length xs
  unfolding discard
  length-discard_le a [] = omega arith
  length-discard_le a (x ∷ xs) = ground (arith, length-discard_le a xs)

  length-discard : (a : A) (xs : List A) → contains xs a ≡ true → length (discard a xs) < length xs
  unfolding discard contains
  length-discard a [] h = cc
  length-discard a (x ∷ xs) h = ground (arith, length-discard_le a xs, length-discard a xs)

  -- Distinct elements of a list that is no longer than them are all of its elements.
  pub Distinct-contains :
      (xs ys : List A)
      → Distinct xs
      → ((a : A) → contains xs a ≡ true → contains ys a ≡ true)
      → length ys ≤ length xs
      → (a : A) → contains ys a ≡ true
      → contains xs a ≡ true
  unfolding contains
  Distinct-contains [] [] h sub short a m = m
  Distinct-contains [] (y ∷ ys) h sub short a m = absurd (omega arith)
  Distinct-contains (x ∷ xs) ys h sub short a m = elim (Bool-cases (x == a)) [
    | inl same ↦ rw same
    | inr other ↦ rw other (
        Distinct-contains xs (discard x ys) h.1 narrower fewer a
          (rw (contains-discard x a ys, other, m)))
  ]
    where
      here : contains ys x ≡ true
      here = sub x (rw ((e.beq_iff x x).1 refl))

      fewer : length (discard x ys) ≤ length xs
      fewer = omega (arith, length-discard x ys here)

      narrower : (b : A) → contains xs b ≡ true → contains (discard x ys) b ≡ true
      narrower b k = elim (Bool-cases (x == b)) [
        | inl same ↦ cc (rw ((e.beq_iff x b).0 same, k) at h.0)
        | inr other ↦ rw (contains-discard x b ys, other) (ground (arith, sub b, k))
      ]

  -- What the tests on sets say of one element.
  pub is_subset-contains :
      (xs ys : List A) (a : A)
      → is_subset xs ys ≡ true
      → (contains xs a && not (contains ys a)) ≡ false
  is_subset-contains xs ys a h = elim (Bool-cases (contains xs a)) [
    | inr absent ↦ rw absent
    | inl present ↦
        rw ((contains_iff ys a).1 (is_subset-In xs ys a h ((contains_iff xs a).0 present)), present)
  ]

  pub same_set-contains :
      (xs ys : List A) (a : A) → same_set xs ys ≡ true → contains xs a ≡ contains ys a
  unfolding same_set
  same_set-contains xs ys a h =
      ground (arith, is_subset-contains xs ys a, is_subset-contains ys xs a)

  pub intersects-contains :
      (xs ys : List A) (a : A) → intersects xs ys ≡ false → (contains xs a && contains ys a) ≡ false
  unfolding intersects contains
  intersects-contains [] ys a h = refl
  intersects-contains (x ∷ xs) ys a h = elim (Bool-cases (x == a)) [
    | inr other ↦ ground (arith, other, intersects-contains xs ys a)
    | inl same ↦
        let at_a : contains ys x ≡ contains ys a = rw ((e.beq_iff x a).0 same) refl in
        ground (arith, at_a, intersects-contains xs ys a)
  ]

  pub same_set_intro :
      (xs ys : List A) → ((a : A) → contains xs a ≡ contains ys a) → same_set xs ys ≡ true
  unfolding same_set
  same_set_intro xs ys h = rw (
    is_subset_intro xs ys (λ a m. rw (← h a) ((contains_iff xs a).1 m)),
    is_subset_intro ys xs (λ a m. rw (h a) ((contains_iff ys a).1 m)),
  )

  pub intersects_intro :
      (xs ys : List A)
      → ((a : A) → (contains xs a && contains ys a) ≡ false)
      → intersects xs ys ≡ false
  unfolding intersects contains
  intersects_intro [] ys h = refl
  intersects_intro (x ∷ xs) ys h = rw (
    intersects_intro xs ys (λ a. ground (arith, h a)),
    (let here = h x in rw ((e.beq_iff x x).1 refl) at here),
  )

  pub is_subset_pointwise :
      (xs ys : List A)
      → ((a : A) → (contains xs a && not (contains ys a)) ≡ false)
      → is_subset xs ys ≡ true
  is_subset_pointwise xs ys h =
      is_subset_intro xs ys (λ a m. ground (arith, h a, (contains_iff xs a).1 m))

module _ {A : Type 0} ⦃e : Eq A⦄ where
  discard_sub :
      (x : A) (xs ys : List A)
      → Distinct (x ∷ xs)
      → ((a : A) → contains (x ∷ xs) a ≡ true → contains ys a ≡ true)
      → (b : A) → contains xs b ≡ true
      → contains (discard x ys) b ≡ true
  unfolding contains
  discard_sub x xs ys h sub b k = elim (Bool-cases (x == b)) [
    | inl same ↦ cc (rw ((e.beq_iff x b).0 same, k) at h.0)
    | inr other ↦ rw (contains-discard x b ys, other) (ground (arith, sub b, k))
  ]

  -- Distinct elements of a list are no more than it has.
  pub Distinct-length :
      (xs ys : List A)
      → Distinct xs
      → ((a : A) → contains xs a ≡ true → contains ys a ≡ true)
      → length xs ≤ length ys
  unfolding contains
  Distinct-length [] ys h sub = omega arith
  Distinct-length (x ∷ xs) ys h sub =
      let here : contains ys x ≡ true = sub x (rw ((e.beq_iff x x).1 refl)) in
      omega (
        arith,
        length-discard x ys here,
        Distinct-length xs (discard x ys) h.1 (discard_sub x xs ys h sub),
      )
