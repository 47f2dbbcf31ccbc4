-- ===== src/PeakSafe/Same.antt =====
-- src/oscmix_desk/peaksafe.py: a quiet switch against the switch that it stands for.
use oscmix_desk.Common.{
  ℕ, zero, suc, refl, take, ◌≡◌, sym, ap, ◌∙◌, inl, inr, true, false, Option, none, some, List, [],
  ◌∷◌, ◌++◌, leb, ℕ_eq, if_false, Option-cases,
}
use oscmix_desk.Common.Sets.{contains, contains_iff, Distinct, List_eq}
use oscmix_desk.Common.Sort.{sort_by, In-sort_by}
use oscmix_desk.Common.Dict.{
  Dict, lookup, insert, keys, lookup-keys, lookup-In, Distinct-lookup, insert-Distinct,
}
use oscmix_desk.Floats.{Floats}
use oscmix_desk.Osc.Message.{Value, float}
use oscmix_desk.Paths.{OscPath, Segment_eq}
use oscmix_desk.Registers.{Device}
use oscmix_desk.Autogain.{Reports}
use oscmix_desk.Reconcile.Entries.{Send, volume_path}
use oscmix_desk.Reconcile.Compare.{Write}
use oscmix_desk.Reconcile.Apply.{write_paths}
use oscmix_desk.PeakSafe.{
  Failures, Effect, sends_plan, sends_messages, sent_part, quieting, output_le, volume_after,
  giving_back, volume_paths, declared_volumes, unquieted, send_and_give_back, send_between,
  reported_volumes, add_volumes, usable_volume, switch_volumes, seen_volumes, changed_outputs,
}
use oscmix_desk.PeakSafe.GivenBack.{
  write_values, send_values, trace_values, last_value, or_else_elim, last_value-append,
  unquieted_values, declared_volumes_values, unquieted-take, last_value_or, contains-volume_paths,
  listed_key, listed_path, give_all_other, give_all_other_part, give_all_own, quiet_all_other,
  quiet_all_own,
}

take-take : {A : Type 0} (xs : List A) (n k : ℕ) → (m : ℕ) × (take n (take k xs) ≡ take m xs)
take-take xs zero k = (0, refl)
take-take xs (suc n) zero = (0, refl)
take-take [] (suc n) (suc k) = (0, refl)
take-take (x ∷ xs) (suc n) (suc k) =
    let (m, same) = take-take xs n k in (suc m, ap (λ ys. x ∷ ys) same)

module _ {F : Type 0} where
  empty_cut : (x : Effect F) (earlier later : List (Effect F)) → [] ≡ earlier ++ (x ∷ later) → ⊥
  empty_cut x [] later h = cc
  empty_cut x (e ∷ earlier) later h = cc

  messages_cut :
      (sends : List (Send F)) (ws : List (Write F)) (earlier later : List (Effect F))
      → sends_messages sends ∷ [] ≡ earlier ++ (sends_plan ws ∷ later)
      → ⊥
  messages_cut sends ws [] later h = cc
  messages_cut sends ws (e ∷ earlier) later h = empty_cut (sends_plan ws) earlier later cc

  -- The one plan of three steps is their second.
  plan_cut :
      (down back : List (Send F)) (part ws : List (Write F)) (earlier later : List (Effect F))
      → sends_messages down ∷ sends_plan part ∷ sends_messages back ∷ []
        ≡ earlier ++ (sends_plan ws ∷ later)
      → (earlier ≡ sends_messages down ∷ []) × (ws ≡ part)
  plan_cut down back part ws [] later h = cc
  plan_cut down back part ws (e ∷ []) later h = (cc, cc)
  plan_cut down back part ws (e ∷ f ∷ earlier) later h =
      absurd (messages_cut back ws earlier later cc)

module _ {F : Type 0} ⦃fl : Floats F⦄ where
  add_volumes-Distinct :
      (outputs : List ℕ) (observed : Reports F) (volumes : Dict ℕ F)
      → Distinct (keys volumes)
      → Distinct (keys (add_volumes outputs observed volumes))
  unfolding add_volumes
  add_volumes-Distinct [] observed volumes h = h
  add_volumes-Distinct (n ∷ outputs) observed volumes h =
      elim (Option-cases (usable_volume (lookup (volume_path n) observed))) [
        | inl none_reported ↦
            rw (add_volumes, none_reported) (add_volumes-Distinct outputs observed volumes h)
        | inr (v, reported) ↦
            rw (add_volumes, reported)
              (add_volumes-Distinct outputs observed (insert n v volumes)
                (insert-Distinct n v volumes h))
      ]

  give_back_value :
      (writes : List (Write F)) (volumes : Dict ℕ F) (output : ℕ) (v : F)
      → contains (volume_paths (keys volumes)) (volume_path output) ≡ true
      → some (volume_after (declared_volumes (volume_paths (keys volumes)) writes []) output v)
        ≡ last_value (volume_path output) (write_values writes) (some (float v ∷ []))
  unfolding volume_after lookup
  give_back_value writes volumes output v held =
      let declared : lookup (volume_path output)
            (declared_volumes (volume_paths (keys volumes)) writes [])
          ≡ last_value (volume_path output) (write_values writes) none =
        declared_volumes_values (volume_paths (keys volumes)) writes [] (volume_path output) held in
      rw (volume_after, declared)
        (or_else_elim (last_value (volume_path output) (write_values writes) none) (float v ∷ [])
          ∙ sym (last_value_or (volume_path output) (write_values writes) (some (float v ∷ []))))

  abbrev kept_writes : List (Write F) → Dict ℕ F → List (Write F)
  kept_writes writes volumes = unquieted (volume_paths (keys volumes)) writes

  abbrev returned : List (Write F) → Dict ℕ F → List (Send F)
  returned writes volumes =
      giving_back volumes (declared_volumes (volume_paths (keys volumes)) writes [])

  -- The three steps of a quiet switch, each as far as it got.
  trace_lem :
      (writes : List (Write F)) (volumes : Dict ℕ F) (fails : Failures) (path : OscPath)
      (before : Option (List (Value F)))
      → fails.quieting ≡ none
      → last_value path (trace_values (send_between writes volumes fails).0) before
        ≡ last_value path (send_values (sent_part fails.giving_back (returned writes volumes))) (
            last_value path
              (write_values (sent_part fails.plan (kept_writes writes volumes)))
              (last_value path (send_values (quieting volumes)) before))
  unfolding send_between send_and_give_back trace_values last_value
  trace_lem writes volumes fails path before quiet =
      let plan_part = write_values (sent_part fails.plan (kept_writes writes volumes)) in
      let back = send_values (sent_part fails.giving_back (returned writes volumes)) in
      rw (quiet) (
        last_value-append path (send_values (quieting volumes)) (plan_part ++ (back ++ [])) before
        ∙ last_value-append path plan_part (back ++ [])
            (last_value path (send_values (quieting volumes)) before)
        ∙ last_value-append path back []
            (last_value path plan_part (last_value path (send_values (quieting volumes)) before)))

  quieted_In :
      (volumes : Dict ℕ F) (output : ℕ) (v : F)
      → lookup output volumes ≡ some v
      → contains (volume_paths (keys volumes)) (volume_path output) ≡ true
  quieted_In volumes output v found =
      contains-volume_paths (keys volumes) output
      ∙ (contains_iff (keys volumes) output).1 (lookup-keys output v volumes found)

  -- When neither the quieting nor the giving back raises, an output that was quieted is given back
  -- the volume that the whole plan would have left it with: the one that the plan writes, else the
  -- one that it had, also when the plan raises after any number of its writes. Each output is quieted
  -- once.
  pub send_between_own :
      (writes : List (Write F)) (volumes : Dict ℕ F) (fails : Failures) (output : ℕ) (v : F)
      (before : Option (List (Value F)))
      → Distinct (keys volumes)
      → fails.quieting ≡ none
      → fails.giving_back ≡ none
      → lookup output volumes ≡ some v
      → last_value (volume_path output) (trace_values (send_between writes volumes fails).0) before
        ≡ last_value (volume_path output) (write_values writes) (some (float v ∷ []))
  unfolding giving_back sent_part
  send_between_own writes volumes fails output v before once quiet whole found =
      trace_lem writes volumes fails (volume_path output) before quiet
      ∙ rw whole (
          give_all_own (sort_by output_le volumes)
            (declared_volumes (volume_paths (keys volumes)) writes []) output v
            (last_value (volume_path output)
              (write_values (sent_part fails.plan (kept_writes writes volumes)))
              (last_value (volume_path output) (send_values (quieting volumes)) before))
            (λ b m.
              Distinct-lookup output v b volumes once found
                ((In-sort_by output_le (output, b) volumes).0 m))
            (inl ((In-sort_by output_le (output, v) volumes).1 (lookup-In output v volumes found))))
      ∙ give_back_value writes volumes output v (quieted_In volumes output v found)

  returned_other :
      (writes : List (Write F)) (volumes : Dict ℕ F) (part : Option ℕ) (path : OscPath)
      (before : Option (List (Value F)))
      → contains (volume_paths (keys volumes)) path ≡ false
      → last_value path (send_values (sent_part part (returned writes volumes))) before ≡ before
  unfolding giving_back sent_part
  returned_other writes volumes none path before free =
      give_all_other (sort_by output_le volumes)
        (declared_volumes (volume_paths (keys volumes)) writes []) path before
        (λ n b m. listed_path volumes n b path ((In-sort_by output_le (n, b) volumes).0 m) free)
  returned_other writes volumes (some k) path before free =
      give_all_other_part k (sort_by output_le volumes)
        (declared_volumes (volume_paths (keys volumes)) writes []) path before
        (λ n b m. listed_path volumes n b path ((In-sort_by output_le (n, b) volumes).0 m) free)

  -- When neither the quieting nor the plan raises, a register that is no quieted volume is left by
  -- a quiet switch as by the plan alone, however far the giving back gets.
  pub send_between_other :
      (writes : List (Write F)) (volumes : Dict ℕ F) (fails : Failures) (path : OscPath)
      (before : Option (List (Value F)))
      → fails.quieting ≡ none
      → fails.plan ≡ none
      → contains (volume_paths (keys volumes)) path ≡ false
      → last_value path (trace_values (send_between writes volumes fails).0) before
        ≡ last_value path (write_values writes) before
  unfolding quieting sent_part
  send_between_other writes volumes fails path before quiet whole free =
      trace_lem writes volumes fails path before quiet
      ∙ returned_other writes volumes fails.giving_back path
          (last_value path (write_values (sent_part fails.plan (kept_writes writes volumes)))
            (last_value path (send_values (quieting volumes)) before))
          free
      ∙ ap
          (λ part.
            last_value path (write_values (sent_part part (kept_writes writes volumes)))
              (last_value path (send_values (quieting volumes)) before))
          whole
      ∙ unquieted_values (volume_paths (keys volumes)) writes path
          (last_value path (send_values (quieting volumes)) before)
      ∙ if_false (contains (volume_paths (keys volumes)) path) _ _ free
      ∙ ap (last_value path (write_values writes)) (
          quiet_all_other (sort_by leb (keys volumes)) path before
            (λ n m. listed_key (keys volumes) n path ((In-sort_by leb n (keys volumes)).0 m) free))

  sent_part-take :
      (ws : List (Write F)) (n : ℕ) (part : Option ℕ)
      → (m : ℕ) × (take n (sent_part part ws) ≡ take m ws)
  unfolding sent_part
  sent_part-take ws n none = (n, refl)
  sent_part-take ws n (some k) = take-take ws n k

  quieted_part :
      (writes : List (Write F)) (volumes : Dict ℕ F) (part : Option ℕ) (output n : ℕ) (v : F)
      (before : Option (List (Value F)))
      → lookup output volumes ≡ some v
      → last_value
          (volume_path output)
          (write_values (take n (sent_part part (kept_writes writes volumes))))
          (last_value (volume_path output) (send_values (quieting volumes)) before)
        ≡ some (float fl.level_min ∷ [])
  unfolding quieting
  quieted_part writes volumes part output n v before found =
      let (m, same) = sent_part-take (kept_writes writes volumes) n part in
      let down = last_value (volume_path output) (send_values (quieting volumes)) before in
      ap (λ ws. last_value (volume_path output) (write_values ws) down) same
      ∙ unquieted-take (volume_paths (keys volumes)) writes (volume_path output) m down
          (quieted_In volumes output v found)
      ∙ quiet_all_own (sort_by leb (keys volumes)) output before
          (inl ((In-sort_by leb output (keys volumes)).1 (lookup-keys output v volumes found)))

  -- In the trace of a quiet switch, whatever raises: behind all that goes out before the writes of
  -- the plan and any number of these, each quieted output stands at the backend's explicit zero.
  pub send_between_quiet :
      (writes ws : List (Write F)) (volumes : Dict ℕ F) (fails : Failures)
      (earlier later : List (Effect F)) (output n : ℕ) (v : F) (before : Option (List (Value F)))
      → (send_between writes volumes fails).0 ≡ earlier ++ (sends_plan ws ∷ later)
      → lookup output volumes ≡ some v
      → last_value (volume_path output) (trace_values earlier ++ write_values (take n ws)) before
        ≡ some (float fl.level_min ∷ [])
  unfolding send_between send_and_give_back trace_values last_value
  send_between_quiet writes ws volumes fails earlier later output n v before cut found =
      elim (Option-cases fails.quieting) [
        | inr (k, raised) ↦ absurd (
            messages_cut (take k (quieting volumes)) ws earlier later
              (rw (raised, send_between) at cut))
        | inl quiet ↦
            let (before_plan, same) =
              plan_cut (quieting volumes) (sent_part fails.giving_back (returned writes volumes))
                (sent_part fails.plan (kept_writes writes volumes)) ws earlier later
                (rw (quiet, send_between, send_and_give_back) at cut) in
            ap
              (λ effects.
                last_value (volume_path output) (trace_values effects ++ write_values (take n ws))
                  before)
              before_plan
            ∙ ap
                (λ xs.
                  last_value (volume_path output)
                    ((send_values (quieting volumes) ++ []) ++ write_values (take n xs)) before)
                same
            ∙ last_value-append (volume_path output) (send_values (quieting volumes) ++ [])
                (write_values (take n (sent_part fails.plan (kept_writes writes volumes)))) before
            ∙ ap
                (λ b.
                  last_value (volume_path output)
                    (write_values (take n (sent_part fails.plan (kept_writes writes volumes)))) b)
                (last_value-append (volume_path output) (send_values (quieting volumes)) [] before)
            ∙ quieted_part writes volumes fails.plan output n v before found
      ]

  -- The volumes that a switch finds reported are each those of one output.
  pub switch_volumes-Distinct :
      (device : Device F) (writes : List (Write F)) (latest : Reports F)
      (read : List OscPath → Reports F)
      → Distinct (keys (switch_volumes device writes latest read))
  unfolding switch_volumes reported_volumes
  switch_volumes-Distinct device writes latest read =
      add_volumes-Distinct (changed_outputs (write_paths writes) device)
        (seen_volumes (changed_outputs (write_paths writes) device) latest read) [] tt
