-- ===== src/Verify/Repair/Certified.antt =====
-- src/oscmix_desk/verify.py: what the success of a verification certifies, and what it may send.
use oscmix_desk.Common.{
  Bool, true, false, not, ◌&&◌, Option, List, [], ◌∷◌, ◌≡◌, ◌⊎◌, refl, ap, ◌∙◌, inl, inr,
  if◌then◌else◌, Result, ok, err, ok-injective, Result-cases, Bool-cases,
}
use oscmix_desk.Floats.{Floats}
use oscmix_desk.Paths.{OscPath}
use oscmix_desk.Registers.{Device}
use oscmix_desk.Model.{is_empty}
use oscmix_desk.Model.Config.{Config}
use oscmix_desk.Reconcile.Entries.{Entry}
use oscmix_desk.Reconcile.Desired.{desired}
use oscmix_desk.Verify.{VerifyResult, Round}
use oscmix_desk.Verify.Repair.{
  Attempt, Sent, Failed, Step, stopped, again, unresolved, answered, links_among,
  declared_link_paths, report_problems, read_back, answer_of, mix_step, repair_step, judge_step,
  attempt_step, second_attempt, attempts, verify_and_repair,
}

module _ (E : Type 0) (F : Type 0) ⦃fl : Floats F⦄ (config : Config F)
    (device : Option (Device F)) where
  -- The read-back of an attempt ended, with no register to repair and no contradicted link.
  abbrev pub ReadsClean : List OscPath → Attempt E F → Type 0
  ReadsClean links attempt =
      (rounds : List (Round F)) × (result : VerifyResult F) × (attempt.read ≡ ok rounds)
      × (read_back config device attempt.stop_reading rounds ≡ ok result)
      × (report_problems result config device ≡ ok [])
      × (links_among links result.mismatched ≡ [])

  empty_list : {A : Type 0} (xs : List A) → is_empty xs ≡ true → xs ≡ []
  empty_list [] h = refl
  empty_list (x ∷ xs) h = cc

  answered_true :
      (problems wrong : List OscPath)
      → ◌≡◌ {A = Result (Failed E) Step}
          (ok (if is_empty problems then answered (is_empty wrong) else unresolved))
          (ok (answered true))
      → (problems ≡ []) × (wrong ≡ [])
  answered_true [] [] h = (refl, refl)
  answered_true [] (w ∷ wrong) h = cc
  answered_true (p ∷ problems) wrong h = cc

  mix_step_answered :
      (links : List OscPath) (result : VerifyResult F) (problems : List OscPath)
      (attempt : Attempt E F)
      → (mix_step config device links result problems attempt).1 ≡ ok (answered true)
      → (problems ≡ []) × (links_among links result.mismatched ≡ [])
  unfolding mix_step
  mix_step_answered links result problems attempt h =
      elim (Bool-cases (is_empty (links_among links result.mismatched) && not (is_empty links))) [
        | inr withheld ↦
            answered_true problems (links_among links result.mismatched)
              (rw (withheld, mix_step) at h)
        | inl free ↦ elim (Result-cases attempt.send_mix) [
          | inr (e, failed) ↦ cc (rw (free, failed, mix_step) at h)
          | inl (_, sent) ↦
              answered_true problems (links_among links result.mismatched)
                (rw (free, sent, mix_step) at h)
        ]
      ]

  repair_step_unanswered :
      (links : List OscPath) (result : VerifyResult F) (attempt : Attempt E F)
      → (repair_step config device links result attempt).1 ≡ ok (answered true)
      → ⊥
  unfolding repair_step
  repair_step_unanswered links result attempt h = elim (Bool-cases attempt.stop_repair) [
    | inl stopping ↦ cc (rw (stopping, repair_step) at h)
    | inr going ↦ elim (Result-cases attempt.reapply) [
      | inr (e, failed) ↦ cc (rw (going, failed, repair_step) at h)
      | inl (_, sent) ↦ elim (Bool-cases attempt.stop_settling) [
        | inl settling ↦ cc (rw (going, sent, settling, repair_step) at h)
        | inr settled ↦ cc (rw (going, sent, settled, repair_step) at h)
      ]
    ]
  ]

  judge_step_answered :
      (first : Bool) (links : List OscPath) (result : VerifyResult F) (attempt : Attempt E F)
      → (judge_step config device first links result attempt).1 ≡ ok (answered true)
      → (report_problems result config device ≡ ok []) × (links_among links result.mismatched ≡ [])
  unfolding judge_step
  judge_step_answered first links result attempt h =
      elim (Result-cases (report_problems result config device)) [
        | inr (e, failed) ↦ cc (rw (failed, judge_step) at h)
        | inl (problems, found) ↦ elim (Bool-cases (first && not (is_empty problems))) [
          | inl repairs ↦
              absurd
                (repair_step_unanswered links result attempt (rw (found, repairs, judge_step) at h))
          | inr mixes ↦
              let (none_left, agree) =
                mix_step_answered links result problems attempt
                  (rw (found, mixes, judge_step) at h) in
              (found ∙ ap ok none_left, agree)
        ]
      ]

  attempt_step_answered :
      (first : Bool) (links : List OscPath) (attempt : Attempt E F)
      → (attempt_step config device first links attempt).1 ≡ ok (answered true)
      → ReadsClean links attempt
  unfolding attempt_step
  attempt_step_answered first links attempt h = elim (Bool-cases attempt.stop_before) [
    | inl early ↦ cc (rw (early, attempt_step) at h)
    | inr going ↦ elim (Result-cases attempt.read) [
      | inr (e, failed) ↦ cc (rw (going, failed, attempt_step) at h)
      | inl (rounds, read) ↦
          elim (Result-cases (read_back config device attempt.stop_reading rounds)) [
            | inr (e, refused) ↦ cc (rw (going, read, refused, attempt_step) at h)
            | inl (result, classified) ↦ elim (Bool-cases attempt.stop_after) [
              | inl late ↦ cc (rw (going, read, classified, late, attempt_step) at h)
              | inr on ↦
                  let (clean, agree) =
                    judge_step_answered first links result attempt
                      (rw (going, read, classified, on, attempt_step) at h) in
                  (rounds, result, read, classified, clean, agree)
            ]
          ]
    ]
  ]

  answer_true : (step : Step) → answer_of step ≡ true → step ≡ answered true
  answer_true stopped h = cc
  answer_true again h = cc
  answer_true unresolved h = cc
  answer_true (answered true) h = refl
  answer_true (answered false) h = cc

  second_attempt_succeeds :
      (links : List OscPath) (sent : List (Sent F)) (attempt : Attempt E F)
      → (second_attempt config device links sent attempt).1 ≡ ok true
      → ReadsClean links attempt
  unfolding second_attempt
  second_attempt_succeeds links sent attempt h =
      elim (Result-cases (attempt_step config device false links attempt).1) [
        | inr (e, failed) ↦ cc (rw (failed, second_attempt) at h)
        | inl (end, ended) ↦
            attempt_step_answered false links attempt
              (ended ∙ ap ok (answer_true end (ok-injective (rw (ended, second_attempt) at h))))
      ]

  attempts_succeed :
      (links : List OscPath) (first second : Attempt E F)
      → (attempts config device links first second).1 ≡ ok true
      → ReadsClean links first ⊎ ReadsClean links second
  unfolding attempts
  attempts_succeed links first second h = split (attempt_step config device true links first).1 refl
    where
      split :
          (end : Result (Failed E) Step)
          → (attempt_step config device true links first).1 ≡ end
          → ReadsClean links first ⊎ ReadsClean links second
      split (err e) ended = cc (rw (ended, attempts) at h)
      split (ok (answered true)) ended = inl (attempt_step_answered true links first ended)
      split (ok (answered false)) ended = cc (rw (ended, attempts) at h)
      split (ok stopped) ended = cc (rw (ended, attempts) at h)
      split (ok again) ended = inr (
          second_attempt_succeeds links (attempt_step config device true links first).0 second
            (rw (ended, attempts) at h))
      split (ok unresolved) ended = inr (
          second_attempt_succeeds links (attempt_step config device true links first).0 second
            (rw (ended, attempts) at h))

  -- When the desk is accepted, a verification succeeds only if the read-back of one of its two
  -- attempts ended with no register to repair and with no link of the desk contradicted.
  pub verify_and_repair-ReadsClean :
      (first second : Attempt E F) (entries : List (Entry F))
      → desired config device ≡ ok entries
      → (verify_and_repair config device first second).1 ≡ ok true
      → ReadsClean (declared_link_paths entries) first
        ⊎ ReadsClean (declared_link_paths entries) second
  unfolding verify_and_repair
  verify_and_repair-ReadsClean first second entries wanted h =
      attempts_succeed (declared_link_paths entries) first second
        (rw (wanted, verify_and_repair) at h)
