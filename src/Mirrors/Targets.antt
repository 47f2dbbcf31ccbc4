-- ===== src/Mirrors/Targets.antt =====
-- src/oscmix_desk/mirrors.py: the targets that `expand_mirrors` has claimed.
use mathlib.Core.Path.{subst}
use oscmix_desk.Common.{
  ℕ, ◌≡◌, sym, ◌∙◌, false, List, [], ◌∷◌, All, In, inl, inr, ok, bind_ok, ok-injective, refuse_ok,
  ℕ_eq, All-map,
}
use oscmix_desk.Common.Sets.{contains, contains_iff}
use oscmix_desk.Common.Dict.{keys, insert, keys-insert, keys-insert_self}
use oscmix_desk.Mirrors.{Mirror, Claimed, claim_channels, claim_targets}

abbrev pub Disjoint : List ℕ → List ℕ → Type 0
Disjoint xs ys = (c : ℕ) → In c xs → In c ys → ⊥

record ClaimedChannels (channels : List ℕ) (before after : Claimed) : Type 0 where
  fresh : Disjoint channels (keys before)
  kept : (c : ℕ) → In c (keys before) → In c (keys after)
  added : (c : ℕ) → In c channels → In c (keys after)

claim_channels_lem :
    (source channels : List ℕ) (before after : Claimed)
    → claim_channels source channels before ≡ ok after
    → ClaimedChannels channels before after
unfolding claim_channels
claim_channels_lem source [] before after h = record {
  fresh = λ c m k. absurd m;
  kept = λ c k. subst (λ d. In c (keys d)) (ok-injective h) k;
  added = λ c m. absurd m;
}
claim_channels_lem source (channel ∷ channels) before after h =
    let (u, e, h') = bind_ok _ _ h in
    let absent : contains (keys before) channel ≡ false = refuse_ok _ _ e in
    let more = claim_channels_lem source channels (insert channel source before) after h' in
    record {
      fresh = λ c m k. elim m [
        | inl here ↦ cc (sym absent ∙ (contains_iff (keys before) channel).1 (rw here k))
        | inr later ↦ more.fresh c later (keys-insert channel c source before k)
      ];
      kept = λ c k. more.kept c (keys-insert channel c source before k);
      added = λ c m. elim m [
        | inl here ↦ more.kept c (rw (← here) (keys-insert_self channel source before))
        | inr later ↦ more.added c later
      ];
    }

-- Targets share no channel.
abbrev pub Apart : List Mirror → Type 0
Apart [] = Unit {0}
Apart (mirror ∷ mirrors) = All (λ other. Disjoint other.0 mirror.0) mirrors × Apart mirrors

pub record ClaimedTargets (mirrors : List Mirror) (before after : Claimed) : Type 0 where
  pub fresh : All (λ mirror. Disjoint mirror.0 (keys before)) mirrors
  pub kept : (c : ℕ) → In c (keys before) → In c (keys after)
  pub added : All (λ mirror. (c : ℕ) → In c mirror.0 → In c (keys after)) mirrors
  pub apart : Apart mirrors

pub claim_targets_lem :
    (mirrors : List Mirror) (before after : Claimed)
    → claim_targets mirrors before ≡ ok after
    → ClaimedTargets mirrors before after
unfolding claim_targets
claim_targets_lem [] before after h = record {
  fresh = tt;
  kept = λ c k. subst (λ d. In c (keys d)) (ok-injective h) k;
  added = tt;
  apart = tt;
}
claim_targets_lem ((target, source) ∷ mirrors) before after h =
    let (middle, e, h') = bind_ok (claim_channels source target before) _ h in
    let one = claim_channels_lem source target before middle e in
    let more = claim_targets_lem mirrors middle after h' in
    record {
      fresh = (
        one.fresh,
        All-map _ _ mirrors
            (λ (m : Mirror) (d : Disjoint m.0 (keys middle)) c i k. d c i (one.kept c k))
            more.fresh,
      );
      kept = λ c k. more.kept c (one.kept c k);
      added = (λ c m. more.kept c (one.added c m), more.added);
      apart = (
        All-map _ _ mirrors
            (λ (m : Mirror) (d : Disjoint m.0 (keys middle)) c i k. d c i (one.added c k))
            more.fresh,
        more.apart,
      );
    }
