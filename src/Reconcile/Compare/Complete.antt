-- ===== src/Reconcile/Compare/Complete.antt =====
-- src/oscmix_desk/reconcile.py: a plan settles every entry, and confirms only what was reported.
use oscmix_desk.Common.{
  ◌≡◌, refl, true, false, Option, none, some, List, [], ◌∷◌, arith, In, ◌⊎◌, inl, inr, leb→le,
  le→leb, Bool-cases, Option-cases,
}
use oscmix_desk.Common.Sort.{In-sort_by, IsSorted, sort_by-IsSorted}
use oscmix_desk.Common.Dict.{lookup}
use oscmix_desk.Common.Sets.{List_eq}
use oscmix_desk.Floats.{Floats}
use oscmix_desk.Osc.Message.{Value}
use oscmix_desk.Paths.{OscPath, Segment_eq}
use oscmix_desk.Registers.{Device, register_at, verify_class}
use oscmix_desk.Reconcile.Entries.{Entry, phase_rank}
use oscmix_desk.Reconcile.Compare.{
  Write, Plan, WriteReason, Verdict, writes, rewrites, confirms, rewrite, write_le, write_of, judge,
  judge_reported, never_reported, record_verdict, record_all, plan, matches, Seen,
}

module _ {F : Type 0} where
  -- Whether a plan settles an entry: it writes it, or it confirms it.
  abbrev pub Settles : Plan F → Entry F → Type 0
  Settles p e = ((reason : WriteReason) × In (write_of e reason) p.writes) ⊎ In e.path p.confirmed

  pub write_total : (x y : Write F) → write_le x y ≡ false → write_le y x ≡ true
  write_total x y e = ground arith

  pub write_trans :
      (x y z : Write F) → write_le x y ≡ true → write_le y z ≡ true → write_le x z ≡ true
  write_trans x y z p q = le→leb (phase_rank x.phase) (phase_rank z.phase) (
      omega (
        arith,
        leb→le (phase_rank x.phase) (phase_rank y.phase) p,
        leb→le (phase_rank y.phase) (phase_rank z.phase) q,
      ))

  record_verdict-Settles :
      (v : Verdict) (e : Entry F) (p : Plan F) → Settles (record_verdict v e p) e
  unfolding record_verdict
  record_verdict-Settles (writes reason) e p = inl (reason, inl refl)
  record_verdict-Settles rewrites e p = inl (rewrite, inl refl)
  record_verdict-Settles confirms e p = inr (inl refl)

  record_verdict-keeps :
      (v : Verdict) (e other : Entry F) (p : Plan F)
      → Settles p other
      → Settles (record_verdict v e p) other
  unfolding record_verdict
  record_verdict-keeps (writes reason) e other p (inl (r, m)) = inl (r, inr m)
  record_verdict-keeps (writes reason) e other p (inr m) = inr m
  record_verdict-keeps rewrites e other p (inl (r, m)) = inl (r, inr m)
  record_verdict-keeps rewrites e other p (inr m) = inr m
  record_verdict-keeps confirms e other p (inl (r, m)) = inl (r, m)
  record_verdict-keeps confirms e other p (inr m) = inr (inr m)

  record_all-Settles :
      (verdict : Entry F → Verdict) (entries : List (Entry F)) (e : Entry F)
      → In e entries
      → Settles (record_all verdict entries) e
  unfolding record_all
  record_all-Settles verdict [] e m = absurd m
  record_all-Settles verdict (x ∷ xs) e (inl same) =
      rw (← same) (record_verdict-Settles (verdict x) x (record_all verdict xs))
  record_all-Settles verdict (x ∷ xs) e (inr m) =
      record_verdict-keeps (verdict x) x e (record_all verdict xs)
        (record_all-Settles verdict xs e m)

  -- What a plan holds comes from an entry and its verdict.
  abbrev pub WrittenFor : (Entry F → Verdict) → List (Entry F) → Write F → Type 0
  WrittenFor verdict entries w =
      (e : Entry F) × In e entries
      × (((reason : WriteReason) × (verdict e ≡ writes reason) × (w ≡ write_of e reason))
          ⊎ ((verdict e ≡ rewrites) × (w ≡ write_of e rewrite)))

  abbrev pub ConfirmedFor : (Entry F → Verdict) → List (Entry F) → OscPath → Type 0
  ConfirmedFor verdict entries path =
      (e : Entry F) × In e entries × (verdict e ≡ confirms) × (e.path ≡ path)

  record_all-confirmed :
      (verdict : Entry F → Verdict) (entries : List (Entry F)) (path : OscPath)
      → In path (record_all verdict entries).confirmed
      → ConfirmedFor verdict entries path
  unfolding record_all
  record_all-confirmed verdict [] path m = absurd m
  record_all-confirmed verdict (x ∷ xs) path m =
      step (verdict x) refl (record_all-confirmed verdict xs path) m
    where
      later : ConfirmedFor verdict xs path → ConfirmedFor verdict (x ∷ xs) path
      later (e, i, c, p) = (e, inr i, c, p)

      step :
          (v : Verdict)
          → verdict x ≡ v
          → (In path (record_all verdict xs).confirmed → ConfirmedFor verdict xs path)
          → In path (record_verdict v x (record_all verdict xs)).confirmed
          → ConfirmedFor verdict (x ∷ xs) path
      step (writes reason) h ih n = later (ih n)
      step rewrites h ih n = later (ih n)
      step confirms h ih (inl here) = (x, inl refl, h, here)
      step confirms h ih (inr n) = later (ih n)

module _ {F : Type 0} ⦃fl : Floats F⦄ where
  -- No entry is lost: a plan writes it with its own value and phase, or confirms its path.
  pub plan-Settles :
      (entries : List (Entry F)) (seen : Option (Seen F)) (device : Option (Device F))
      (tolerance : Option F) (e : Entry F)
      → In e entries
      → Settles (plan entries seen device tolerance) e
  unfolding plan
  plan-Settles entries seen device tolerance e m =
      elim (record_all-Settles (judge seen device tolerance) entries e m) [
        | inl (reason, w) ↦ inl (reason, (In-sort_by write_le _ _).1 w)
        | inr c ↦ inr c
      ]

  -- The writes of a plan are in the order of their phases.
  pub plan-IsSorted :
      (entries : List (Entry F)) (seen : Option (Seen F)) (device : Option (Device F))
      (tolerance : Option F)
      → IsSorted write_le (plan entries seen device tolerance).writes
  unfolding plan
  plan-IsSorted entries seen device tolerance =
      sort_by-IsSorted write_le (λ x y e. write_total x y e) (λ x y z p q. write_trans x y z p q) _

  judge_absent :
      (device : Option (Device F)) (tolerance : Option F) (e : Entry F)
      → judge_reported device tolerance e none ≡ confirms
      → ⊥
  unfolding judge_reported
  judge_absent device tolerance e h = ground arith

  judge_match :
      (device : Option (Device F)) (tolerance : Option F) (e : Entry F) (got : List (Value F))
      → judge_reported device tolerance e (some got) ≡ confirms
      → matches e.tags e.args got tolerance (register_at device e.path) ≡ true
  unfolding judge_reported
  judge_match device tolerance e got h =
      elim (Bool-cases (matches e.tags e.args got tolerance (register_at device e.path))) [
        | inl same ↦ same
        | inr differ ↦ cc (rw differ at h)
      ]

  judge-confirms :
      (seen : Option (Seen F)) (device : Option (Device F)) (tolerance : Option F) (e : Entry F)
      → judge seen device tolerance e ≡ confirms
      → (reports : Seen F) × (got : List (Value F)) × (seen ≡ some reports)
        × (lookup e.path reports ≡ some got)
        × (matches e.tags e.args got tolerance (register_at device e.path) ≡ true)
  unfolding judge judge_reported
  judge-confirms none device tolerance e h = cc
  judge-confirms (some reports) device tolerance e h =
      elim (Bool-cases (never_reported (verify_class device e.path))) [
        | inl never ↦ cc (rw never at h)
        | inr compared ↦
            let h' : judge_reported device tolerance e (lookup e.path reports) ≡ confirms =
              rw compared at h in
            elim (Option-cases (lookup e.path reports)) [
              | inl absent ↦ absurd (judge_absent device tolerance e (rw absent at h'))
              | inr (got, found) ↦
                  (reports, got, refl, found, judge_match device tolerance e got (rw found at h'))
            ]
      ]

  -- A path is confirmed only for an entry of that path whose last report was seen and matches it.
  pub plan-confirmed :
      (entries : List (Entry F)) (seen : Option (Seen F)) (device : Option (Device F))
      (tolerance : Option F) (path : OscPath)
      → In path (plan entries seen device tolerance).confirmed
      → (e : Entry F) × (reports : Seen F) × (got : List (Value F)) × In e entries
        × (e.path ≡ path)
        × (seen ≡ some reports)
        × (lookup e.path reports ≡ some got)
        × (matches e.tags e.args got tolerance (register_at device e.path) ≡ true)
  unfolding plan
  plan-confirmed entries seen device tolerance path m =
      let (e, i, c, p) = record_all-confirmed (judge seen device tolerance) entries path m in
      let (reports, got, s, l, same) = judge-confirms seen device tolerance e c in
      (e, reports, got, i, p, s, l, same)
