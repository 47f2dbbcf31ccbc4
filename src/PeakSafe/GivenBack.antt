-- ===== src/PeakSafe/GivenBack.antt =====
-- src/oscmix_desk/peaksafe.py: what the messages of a quiet switch send last to each register.
use oscmix_desk.Common.{
  ℕ, zero, suc, take, ◌≡◌, refl, ap, ◌∙◌, subst, inl, inr, true, false, Option, none, some, List,
  [], ◌∷◌, ◌++◌, arith, ◌==◌, ℕ_eq, nat_eq_iff, In, if◌then◌else◌, if_false, Bool-cases, ◌⊎◌,
}
use oscmix_desk.Common.Sets.{contains, List_eq}
use oscmix_desk.Common.Dict.{Dict, lookup, insert, keys, lookup-insert}
use oscmix_desk.Floats.{Floats}
use oscmix_desk.Osc.Message.{Value, float}
use oscmix_desk.Paths.{OscPath, Segment_eq}
use oscmix_desk.Reconcile.Entries.{Send, volume_path}
use oscmix_desk.Reconcile.Compare.{Write}
use oscmix_desk.PeakSafe.{
  Effect, sends_plan, sends_messages, quiet_all, volume_after, give_all, volume_paths,
  declared_volumes, unquieted,
}

abbrev pub Values : Type 0 → Type 0
Values F = List (OscPath × List (Value F))

abbrev pub or_else : {A : Type 0} → Option A → Option A → Option A
or_else none y = y
or_else (some x) y = some x

or_else-some :
    {A : Type 0} (o : Option A) (x : A) (y : Option A)
    → or_else o (some x) ≡ or_else (or_else o (some x)) y
or_else-some none x y = refl
or_else-some (some z) x y = refl

pub or_else_elim :
    {A : Type 0} (o : Option A) (x : A)
    → some (elim o [ none ↦ x | some y ↦ y ]) ≡ or_else o (some x)
or_else_elim none x = refl
or_else_elim (some y) x = refl

module _ {F : Type 0} where
  unfoldable pub write_values : List (Write F) → Values F
  write_values [] = []
  write_values (w ∷ ws) = (w.path, w.args) ∷ write_values ws

  unfoldable pub send_values : List (Send F) → Values F
  send_values [] = []
  send_values ((path, _, args) ∷ sends) = (path, args) ∷ send_values sends

  -- the messages of a sequence of effects, in the order in which they go out
  unfoldable pub trace_values : List (Effect F) → Values F
  unfolding write_values send_values
  trace_values [] = []
  trace_values (sends_plan writes ∷ effects) = write_values writes ++ trace_values effects
  trace_values (sends_messages sends ∷ effects) = send_values sends ++ trace_values effects

  -- the arguments that a register was last sent, behind those that it had
  unfoldable pub last_value : OscPath → Values F → Option (List (Value F)) → Option (List (Value F))
  last_value path [] before = before
  last_value path ((q, args) ∷ values) before =
      last_value path values (if q == path then some args else before)

  pub last_value-append :
      (path : OscPath) (xs ys : Values F) (before : Option (List (Value F)))
      → last_value path (xs ++ ys) before ≡ last_value path ys (last_value path xs before)
  unfolding last_value
  last_value-append path [] ys before = refl
  last_value-append path ((q, args) ∷ xs) ys before =
      last_value-append path xs ys (if q == path then some args else before)

  pub unquieted_values :
      (quieted : List OscPath) (writes : List (Write F)) (path : OscPath)
      (before : Option (List (Value F)))
      → last_value path (write_values (unquieted quieted writes)) before
        ≡ (if contains quieted path then before else last_value path (write_values writes) before)
  unfolding unquieted write_values last_value
  unquieted_values quieted [] path before = ground arith
  unquieted_values quieted (w ∷ ws) path before = elim (Bool-cases (w.path == path)) [
    | inr other ↦ elim (Bool-cases (contains quieted w.path)) [
      | inl held ↦
          rw (held, write_values, last_value, other) (unquieted_values quieted ws path before)
      | inr free ↦
          rw (free, write_values, last_value, other) (unquieted_values quieted ws path before)
    ]
    | inl same ↦
        let at : contains quieted w.path ≡ contains quieted path =
          rw ((List_eq.beq_iff w.path path).0 same) refl in
        elim (Bool-cases (contains quieted path)) [
          | inl held ↦ rw (at, held, unquieted_values quieted ws path before, held)
          | inr free ↦
              rw (at, free, write_values, last_value, same)
                (unquieted_values quieted ws path (some w.args)
                  ∙ if_false (contains quieted path) _ _ free)
        ]
  ]

  pub declared_volumes_values :
      (quieted : List OscPath) (writes : List (Write F)) (declared : Dict OscPath (List (Value F)))
      (path : OscPath)
      → contains quieted path ≡ true
      → lookup path (declared_volumes quieted writes declared)
        ≡ last_value path (write_values writes) (lookup path declared)
  unfolding declared_volumes write_values last_value
  declared_volumes_values quieted [] declared path h = refl
  declared_volumes_values quieted (w ∷ ws) declared path h =
      elim (Bool-cases (contains quieted w.path)) [
        | inl held ↦ rw (
          held,
          declared_volumes_values quieted ws (insert w.path w.args declared) path h,
          lookup-insert w.path path w.args declared,
        )
        | inr free ↦ elim (Bool-cases (w.path == path)) [
          | inr other ↦
              rw (free, write_values, last_value, other)
                (declared_volumes_values quieted ws declared path h)
          | inl same ↦ cc (rw ((List_eq.beq_iff w.path path).0 same, h) at free)
        ]
      ]

  -- What is left of a plan that fails sends no quieted register either.
  pub unquieted-take :
      (quieted : List OscPath) (writes : List (Write F)) (path : OscPath) (n : ℕ)
      (before : Option (List (Value F)))
      → contains quieted path ≡ true
      → last_value path (write_values (take n (unquieted quieted writes))) before ≡ before
  unfolding unquieted write_values last_value
  unquieted-take quieted writes path zero before h = refl
  unquieted-take quieted [] path (suc n) before h = refl
  unquieted-take quieted (w ∷ ws) path (suc n) before h =
      elim (Bool-cases (contains quieted w.path)) [
        | inl held ↦ rw held (unquieted-take quieted ws path (suc n) before h)
        | inr free ↦ elim (Bool-cases (w.path == path)) [
          | inl same ↦ cc (rw ((List_eq.beq_iff w.path path).0 same, h) at free)
          | inr other ↦
              rw (free, take, write_values, last_value, other)
                (unquieted-take quieted ws path n before h)
        ]
      ]

  pub last_value_or :
      (path : OscPath) (values : Values F) (before : Option (List (Value F)))
      → last_value path values before ≡ or_else (last_value path values none) before
  unfolding last_value
  last_value_or path [] before = refl
  last_value_or path ((q, args) ∷ values) before = elim (Bool-cases (q == path)) [
    | inr other ↦ rw (last_value, other) (last_value_or path values before)
    | inl same ↦
        rw (last_value, same)
          (rw (last_value_or path values (some args))
            (or_else-some (last_value path values none) args before))
  ]

pub volume_path_same : (m n : ℕ) → ((volume_path m == volume_path n) ≡ (m == n))
unfolding volume_path
volume_path_same m n = ground arith

pub contains-volume_paths :
    (outputs : List ℕ) (output : ℕ)
    → contains (volume_paths outputs) (volume_path output) ≡ contains outputs output
unfolding volume_paths contains
contains-volume_paths [] output = refl
contains-volume_paths (n ∷ outputs) output =
    rw (volume_path_same n output, contains-volume_paths outputs output)

pub listed_key :
    (outputs : List ℕ) (n : ℕ) (path : OscPath)
    → In n outputs
    → contains (volume_paths outputs) path ≡ false
    → (volume_path n == path) ≡ false
unfolding volume_paths contains
listed_key [] n path m h = absurd m
listed_key (k ∷ outputs) n path (inl here) h =
    let apart : (volume_path k == path) ≡ false = ground (arith, h) in
    subst (λ m. (volume_path m == path) ≡ false) here apart
listed_key (k ∷ outputs) n path (inr later) h = listed_key outputs n path later (ground (arith, h))

module _ {F : Type 0} where
  pub listed_path :
      (volumes : Dict ℕ F) (n : ℕ) (b : F) (path : OscPath)
      → In (n, b) volumes
      → contains (volume_paths (keys volumes)) path ≡ false
      → (volume_path n == path) ≡ false
  unfolding volume_paths contains
  listed_path [] n b path m h = absurd m
  listed_path ((k, v) ∷ volumes) n b path (inl same) h =
      let here : k ≡ n = ap (λ p. p.0) same in
      let apart : (volume_path k == path) ≡ false = ground (arith, h) in
      subst (λ m. (volume_path m == path) ≡ false) here apart
  listed_path ((k, v) ∷ volumes) n b path (inr later) h =
      listed_path volumes n b path later (ground (arith, h))

  -- The messages that give the volumes back leave every other register alone.
  pub give_all_other :
      (volumes : List (ℕ × F)) (declared : Dict OscPath (List (Value F))) (path : OscPath)
      (before : Option (List (Value F)))
      → ((n : ℕ) (b : F) → In (n, b) volumes → (volume_path n == path) ≡ false)
      → last_value path (send_values (give_all volumes declared)) before ≡ before
  unfolding give_all send_values last_value
  give_all_other [] declared path before apart = refl
  give_all_other ((n, b) ∷ volumes) declared path before apart =
      rw (give_all, send_values, last_value, apart n b (inl refl))
        (give_all_other volumes declared path before (λ m c k. apart m c (inr k)))

  -- Nor does any part of them.
  pub give_all_other_part :
      (n : ℕ) (volumes : List (ℕ × F)) (declared : Dict OscPath (List (Value F))) (path : OscPath)
      (before : Option (List (Value F)))
      → ((n : ℕ) (b : F) → In (n, b) volumes → (volume_path n == path) ≡ false)
      → last_value path (send_values (take n (give_all volumes declared))) before ≡ before
  unfolding give_all send_values last_value
  give_all_other_part zero volumes declared path before apart = refl
  give_all_other_part (suc k) [] declared path before apart = refl
  give_all_other_part (suc k) ((n, b) ∷ volumes) declared path before apart =
      rw (give_all, take, send_values, last_value, apart n b (inl refl))
        (give_all_other_part k volumes declared path before (λ m c i. apart m c (inr i)))

  pub give_all_own :
      (volumes : List (ℕ × F)) (declared : Dict OscPath (List (Value F))) (output : ℕ) (v : F)
      (before : Option (List (Value F)))
      → ((b : F) → In (output, b) volumes → b ≡ v)
      → (In (output, v) volumes ⊎ (before ≡ some (volume_after declared output v)))
      → last_value (volume_path output) (send_values (give_all volumes declared)) before
        ≡ some (volume_after declared output v)
  unfolding give_all send_values last_value
  give_all_own [] declared output v before one (inl m) = absurd m
  give_all_own [] declared output v before one (inr e) = e
  give_all_own ((n, b) ∷ volumes) declared output v before one h = elim (Bool-cases (n == output)) [
    | inl same ↦
        let at : n ≡ output = (nat_eq_iff n output).0 same in
        let value : b ≡ v = one b (inl (rw at)) in
        rw (give_all, send_values, last_value, volume_path_same n output, same)
          (give_all_own volumes declared output v (some (volume_after declared n b))
            (λ c m. one c (inr m)) (inr (rw (at, value))))
    | inr other ↦
        rw (give_all, send_values, last_value, volume_path_same n output, other)
          (give_all_own volumes declared output v before (λ c m. one c (inr m))
            (elim h [
              | inr e ↦ inr e
              | inl (inl here) ↦ let yes_same = (nat_eq_iff n output).1 (ap (λ p. p.0) here) in cc
              | inl (inr later) ↦ inl later
            ]))
  ]

module _ {F : Type 0} ⦃fl : Floats F⦄ where
  pub quiet_all_other :
      (outputs : List ℕ) (path : OscPath) (before : Option (List (Value F)))
      → ((n : ℕ) → In n outputs → (volume_path n == path) ≡ false)
      → last_value path (send_values (quiet_all outputs)) before ≡ before
  unfolding quiet_all send_values last_value
  quiet_all_other [] path before apart = refl
  quiet_all_other (n ∷ outputs) path before apart =
      rw (quiet_all, send_values, last_value, apart n (inl refl))
        (quiet_all_other outputs path before (λ m k. apart m (inr k)))

  pub quiet_all_own :
      (outputs : List ℕ) (output : ℕ) (before : Option (List (Value F)))
      → (In output outputs ⊎ (before ≡ some (float fl.level_min ∷ [])))
      → last_value (volume_path output) (send_values (quiet_all outputs)) before
        ≡ some (float fl.level_min ∷ [])
  unfolding quiet_all send_values last_value
  quiet_all_own [] output before (inl m) = absurd m
  quiet_all_own [] output before (inr e) = e
  quiet_all_own (n ∷ outputs) output before h = elim (Bool-cases (n == output)) [
    | inl same ↦
        rw (quiet_all, send_values, last_value, volume_path_same n output, same)
          (quiet_all_own outputs output (some (float fl.level_min ∷ [])) (inr refl))
    | inr other ↦
        rw (quiet_all, send_values, last_value, volume_path_same n output, other)
          (quiet_all_own outputs output before (elim h [
            | inr e ↦ inr e
            | inl (inl here) ↦ let yes_same = (nat_eq_iff n output).1 here in cc
            | inl (inr later) ↦ inl later
          ]))
  ]
