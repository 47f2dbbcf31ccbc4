-- ===== src/Reconcile/Desired/Order.antt =====
-- src/oscmix_desk/reconcile.py: the order of what a desk asks for.
use oscmix_desk.Common.{
  ◌≡◌, Option, List, arith, ok, ok-injective, bind_ok, leb→le, le→leb, true, false, ◌++◌,
}
use oscmix_desk.Common.Sort.{IsSorted, sort_by-IsSorted}
use oscmix_desk.Floats.{Floats}
use oscmix_desk.Registers.{Device}
use oscmix_desk.Model.Config.{Config}
use oscmix_desk.Reconcile.Entries.{Entry, entry_le, phase_rank}
use oscmix_desk.Reconcile.Desired.{desired, check_desk, route_entries, device_entries}

entry_total : {F : Type 0} (x y : Entry F) → entry_le x y ≡ false → entry_le y x ≡ true
entry_total x y e = ground arith

entry_trans :
    {F : Type 0} (x y z : Entry F) → entry_le x y ≡ true → entry_le y z ≡ true → entry_le x z ≡ true
entry_trans x y z p q = le→leb (phase_rank x.phase) (phase_rank z.phase) (
    omega (
      arith,
      leb→le (phase_rank x.phase) (phase_rank y.phase) p,
      leb→le (phase_rank y.phase) (phase_rank z.phase) q,
    ))

module _ {F : Type 0} ⦃fl : Floats F⦄ where
  -- What a desk asks for is sorted by phase: playback mute on, AutoSet off, every link of every
  -- route, then the matrix, the channels, AutoSet on, and playback mute off.
  pub desired-IsSorted :
      (config : Config F) (device : Option (Device F)) (entries : List (Entry F))
      → desired config device ≡ ok entries
      → IsSorted entry_le entries
  unfolding desired
  desired-IsSorted config device entries h =
      let (u, checked, h1) = bind_ok (check_desk config device) _ h in
      let ((ordered, claimed), routed, h2) = bind_ok (route_entries config.routes) _ h1 in
      let (more, added, h3) = bind_ok (device_entries config device claimed) _ h2 in
      rw (← ok-injective h3) (
        sort_by-IsSorted entry_le (λ x y e. entry_total x y e) (λ x y z p q. entry_trans x y z p q)
          (ordered ++ more))
