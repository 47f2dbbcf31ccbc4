-- ===== src/Reconcile/Compare.antt =====
-- src/oscmix_desk/reconcile.py: reports compared with what is asked for, and the plan of writes.
pub mod Complete
use oscmix_desk.Common.{
  ℕ, Bool, true, false, not, ◌&&◌, ◌||◌, Option, none, some, List, [], ◌∷◌, ◌++◌, leb, ltb, nat_eq,
  if◌then◌else◌, Result, ok, err, ◌>>=◌, ◌>>◌, require, refuse, ◌==◌, length,
}
use oscmix_desk.Common.Int.{ℤ, pos, negsuc, leb_ℤ, int_eq}
use oscmix_desk.Common.Sets.{List_eq}
use oscmix_desk.Common.Sort.{sort_by}
use oscmix_desk.Common.Dict.{Dict, lookup}
use oscmix_desk.Floats.{Floats}
use oscmix_desk.Osc.Message.{Value, int, float, text}
use oscmix_desk.Numeric.{
  NumberError, PyValue, value, not_a_report, equal_float, number_value, report_value, integer,
  finite, domain_is, is_some,
}
use oscmix_desk.Paths.{OscPath, Segment_eq}
use oscmix_desk.Registers.{
  Device, Register, VerifyClass, verifiable, write_only, reestablished, is_number, verify_class,
  register_at, has_domain,
}
use oscmix_desk.Reconcile.Entries.{Entry, Phase, phase_rank}

abbrev in_pan : ℤ → Bool
in_pan n = leb_ℤ (negsuc 99) n && leb_ℤ n (pos 100)

-- `except (TypeError, ValueError, OverflowError): return False`
abbrev or_false : Result NumberError Bool → Bool
or_false (ok b) = b
or_false (err _) = false

module _ {F : Type 0} ⦃fl : Floats F⦄ where
  abbrev is_int : Value F → Bool
  is_int (int _) = true
  is_int _ = false

  abbrev reported_pan : Value F → Bool
  reported_pan (int n) = in_pan n
  reported_pan _ = false

  -- a level at or below the mute floor, reported as digital zero
  unfoldable pub is_silent : List (Value F) → List (Value F) → Result NumberError Bool
  is_silent (level ∷ _) (float reported ∷ _) = do
    wanted ← finite (value level)
    ok (fl.le wanted fl.level_min && fl.is_neg_inf reported)
  is_silent (level ∷ _) _ = do _ ← finite (value level); ok false
  is_silent [] _ = ok false

  -- the balance argument of a matrix cell
  unfoldable pub match_pan :
      List (Value F) → List (Value F) → Value F → Value F → Result NumberError Bool
  unfolding is_silent
  match_pan want got wanted reported =
      if is_int wanted && reported_pan reported
      then (do
        silent ← is_silent want got
        w ← integer (value wanted)
        r ← integer (value reported)
        ok (silent && in_pan w || int_eq w r))
      else ok false

  unfoldable pub match_int :
      List (Value F)
      → List (Value F)
      → Option (Register F)
      → Value F
      → Value F
      → Result NumberError Bool
  unfolding match_pan
  match_int want got none wanted reported = do
    w ← integer (value wanted)
    r ← integer (value reported)
    ok (int_eq w r)
  match_int want got (some register) wanted reported = do
    _ ←
        (if domain_is is_number register.domain
          then (number_value (value wanted) register false >>= λ _. ok tt)
          else ok tt)
    _ ← (if has_domain register then report_value (value reported) register else ok tt)
    if register.mix_level
        then match_pan want got wanted reported
        else (do w ← integer (value wanted); r ← integer (value reported); ok (int_eq w r))

  -- one round of the loop of `matches`
  unfoldable pub match_one :
      List (Value F)
      → List (Value F)
      → Option F
      → Option (Register F)
      → ℕ
      → Value F
      → Value F
      → Result NumberError Bool
  unfolding match_int
  match_one want got tolerance register tag wanted reported =
      if nat_eq tag b'f'
      then equal_float (value wanted) (value reported) register tolerance
      else if nat_eq tag b'i'
      then match_int want got register wanted reported
      else ok false

  unfoldable pub match_all :
      List (Value F)
      → List (Value F)
      → Option F
      → Option (Register F)
      → List ℕ
      → List (Value F)
      → List (Value F)
      → Bool
  unfolding match_one
  match_all want got tolerance register (tag ∷ tags) (w ∷ ws) (r ∷ rs) =
      or_false (match_one want got tolerance register tag w r)
      && match_all want got tolerance register tags ws rs
  match_all want got tolerance register _ _ _ = true

  -- `matches`
  unfoldable pub matches :
      List ℕ → List (Value F) → List (Value F) → Option F → Option (Register F) → Bool
  unfolding match_all
  matches [] want got tolerance register = false
  matches (t ∷ ts) want got tolerance register =
      if ltb (length got) (length want) || not (nat_eq (length (t ∷ ts)) (length want))
      then false
      else match_all want got tolerance register (t ∷ ts) want got

-- `WriteReason`
pub data WriteReason : Type 0 where
  missing mismatched rewrite unconditional prerequisite : WriteReason

-- `Write`
pub record Write (F : Type 0) : Type 0 where
  pub path : OscPath
  pub tags : List ℕ
  pub args : List (Value F)
  pub phase : Phase
  pub reason : WriteReason

-- `Plan`
pub record Plan (F : Type 0) : Type 0 where
  pub writes : List (Write F)
  pub confirmed : List OscPath
  pub unverifiable : List OscPath
  pub retained : List OscPath

abbrev pub write_le : {F : Type 0} → Write F → Write F → Bool
write_le a b = leb (phase_rank a.phase) (phase_rank b.phase)

unfoldable pub write_of : {F : Type 0} → Entry F → WriteReason → Write F
write_of e reason = record {
  path = e.path;
  tags = e.tags;
  args = e.args;
  phase = e.phase;
  reason = reason;
}

-- What the loop of `plan` does with an entry: a write, with a note that it cannot be verified, or
-- a confirmation.
pub data Verdict : Type 0 where
  writes : WriteReason → Verdict
  rewrites : Verdict
  confirms : Verdict

abbrev pub never_reported : Option VerifyClass → Bool
never_reported (some reestablished) = true
never_reported (some write_only) = true
never_reported _ = false

abbrev pub Seen : Type 0 → Type 0
Seen F = Dict OscPath (List (Value F))

module _ {F : Type 0} ⦃fl : Floats F⦄ where
  -- an entry that the device may report
  unfoldable pub judge_reported :
      Option (Device F) → Option F → Entry F → Option (List (Value F)) → Verdict
  judge_reported device tolerance e none = if e.compared then writes missing else rewrites
  judge_reported device tolerance e (some got) =
      if matches e.tags e.args got tolerance (register_at device e.path)
      then confirms
      else writes mismatched

  -- one round of the loop of `plan`
  unfoldable pub judge : Option (Seen F) → Option (Device F) → Option F → Entry F → Verdict
  unfolding judge_reported
  judge none device tolerance e = writes unconditional
  judge (some seen) device tolerance e =
      if never_reported (verify_class device e.path)
      then rewrites
      else judge_reported device tolerance e (lookup e.path seen)

module _ {F : Type 0} where
  unfoldable pub record_verdict : Verdict → Entry F → Plan F → Plan F
  record_verdict (writes reason) e p = record p { writes = write_of e reason ∷ p.writes }
  record_verdict rewrites e p = record p {
    writes = write_of e rewrite ∷ p.writes;
    unverifiable = e.path ∷ p.unverifiable;
  }
  record_verdict confirms e p = record p { confirmed = e.path ∷ p.confirmed }

  unfoldable pub record_all : (Entry F → Verdict) → List (Entry F) → Plan F
  unfolding record_verdict
  record_all verdict [] = record { writes = []; confirmed = []; unverifiable = []; retained = [] }
  record_all verdict (e ∷ es) = record_verdict (verdict e) e (record_all verdict es)

  unfoldable pub in_order : Plan F → Plan F
  in_order p = record p { writes = sort_by write_le p.writes }

module _ {F : Type 0} ⦃fl : Floats F⦄ where
  -- `plan`
  unfoldable pub plan : List (Entry F) → Option (Seen F) → Option (Device F) → Option F → Plan F
  unfolding record_all in_order judge
  plan entries seen device tolerance = in_order (record_all (judge seen device tolerance) entries)
