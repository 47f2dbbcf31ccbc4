-- ===== src/Mirrors/Submix.antt =====
-- src/oscmix_desk/mirrors.py: a mirror's submix is its source's, and nothing else writes it.
use mathlib.Core.List.{append-nil}
use oscmix_desk.Common.{
  ℕ, ◌≡◌, sym, ◌∙◌, List, [], ◌∷◌, ◌++◌, ok, bind_ok, ok-injective, if◌then◌else◌, ℕ_eq,
}
use oscmix_desk.Common.Sets.{intersects}
use oscmix_desk.Model.{Route}
use oscmix_desk.Mirrors.{
  Mirror, claim_targets, check_sources, check_routes, all_copies, expand_mirrors,
}

-- The routes that write any of these outputs.
pub touching : {F : Type 0} → List ℕ → List (Route F) → List (Route F)
touching outputs [] = []
touching outputs (route ∷ routes) =
    let rest = touching outputs routes in
    if intersects route.output outputs then route ∷ rest else rest

module _ {F : Type 0} where
  -- When the mirrors are accepted, the declared routes stay as they are, before the copies.
  pub expand_mirrors-prefix :
      (routes result : List (Route F)) (mirrors : List Mirror)
      → expand_mirrors routes mirrors ≡ ok result
      → result ≡ routes ++ all_copies mirrors routes
  unfolding expand_mirrors all_copies
  expand_mirrors-prefix routes result [] h = sym (ok-injective h) ∙ sym (append-nil routes)
  expand_mirrors-prefix routes result (n ∷ ns) h =
      let (claimed, e, h1) = bind_ok (claim_targets (n ∷ ns) []) _ h in
      let (u, sources, h2) = bind_ok (check_sources claimed (n ∷ ns)) _ h1 in
      let (v, checked, h3) = bind_ok (check_routes claimed (n ∷ ns) routes) _ h2 in
      sym (ok-injective h3)
