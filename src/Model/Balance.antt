-- ===== src/Model/Balance.antt =====
-- src/oscmix_desk/model.py: what `validate_route_pan` guarantees of a desk with a balance.
use oscmix_desk.Common.{
  ◌≡◌, ap, sym, ◌∙◌, true, false, List, [], ◌∷◌, arith, ok, bind_ok, All, In, Bool-cases, inl, inr,
  pair_eq, ℕ_eq, All-In, All-map,
}
use mathlib.Core.Logic.{◌⊎◌}
use mathlib.Core.Option.{some-injective}
use oscmix_desk.Common.Int.{ℤ, int_eq, int_eq_iff, pos}
use oscmix_desk.Common.Dict.{Dict, values, lookup-values}
use oscmix_desk.Floats.{Floats}
use oscmix_desk.Model.Links.{Linked, ClaimsCell, Noted, scan_lem, Noted-ClaimsCell, Noted-Linked}
use oscmix_desk.Model.{
  Kind_eq, Route, Links, Cell, scan_routes, checked_pan, any_pan, agree_with, check_cell,
  check_claims, same_claim, validate_route_pan,
}

module _ {F : Type 0} ⦃fl : Floats F⦄ where
  checked_pan_value : (route : Route F) (pan : ℤ) → checked_pan route ≡ ok pan → route.pan ≡ pan
  unfolding checked_pan
  checked_pan_value route pan h = ground arith

  any_pan-none :
      (routes : List (Route F)) (route : Route F)
      → any_pan routes ≡ ok false
      → In route routes
      → int_eq route.pan (pos 0) ≡ true
  unfolding any_pan
  any_pan-none [] route h m = absurd m
  any_pan-none (r ∷ rs) route h m =
      let (pan, e, h') = bind_ok (checked_pan r) _ h in
      elim (Bool-cases (int_eq pan (pos 0))) [
        | inr panned ↦ cc (rw panned at h')
        | inl plain ↦ elim m [
          | inl same ↦ rw (← same) (rw (checked_pan_value r pan e) plain)
          | inr later ↦ any_pan-none rs route (rw plain at h') later
        ]
      ]

  agree_with-each :
      (first : Route F) (routes : List (Route F)) (route : Route F)
      → agree_with first routes ≡ ok tt
      → In route routes
      → same_claim first route ≡ true
  unfolding agree_with
  agree_with-each first [] route h m = absurd m
  agree_with-each first (r ∷ rs) route h m = elim (Bool-cases (same_claim first r)) [
    | inr differ ↦ cc (rw differ at h)
    | inl agree ↦ elim m [
      | inl same ↦ rw (← same) agree
      | inr later ↦ agree_with-each first rs route (rw agree at h) later
    ]
  ]

  check_claims-each :
      (cells : List (List (Route F))) (cell : List (Route F))
      → check_claims cells ≡ ok tt
      → In cell cells
      → check_cell cell ≡ ok tt
  unfolding check_claims
  check_claims-each [] cell h m = absurd m
  check_claims-each (c ∷ cs) cell h m =
      let (u, e, h') = bind_ok (check_cell c) _ h in
      elim m [ inl same ↦ rw (← same) e | inr later ↦ check_claims-each cs cell h' later ]

  same_claim_sym : (a b : Route F) → same_claim a b ≡ true → same_claim b a ≡ true
  same_claim_sym a b h =
      ground (arith, fl.eq_sym a.level b.level, int_eq_iff a.pan b.pan, int_eq_iff b.pan a.pan)

  same_claim_trans :
      (a b c : Route F) → same_claim a b ≡ true → same_claim b c ≡ true → same_claim a c ≡ true
  same_claim_trans a b c h k = ground (
    arith,
    fl.eq_trans a.level b.level c.level,
    int_eq_iff a.pan b.pan,
    int_eq_iff b.pan c.pan,
    int_eq_iff a.pan c.pan,
  )

  -- Two declarations of one cell where one has a balance.
  check_cell-agree :
      (cell : List (Route F)) (a b : Route F)
      → check_cell cell ≡ ok tt
      → In a cell
      → In b cell
      → int_eq b.pan (pos 0) ≡ false
      → (a ≡ b) ⊎ (same_claim a b ≡ true)
  unfolding check_cell
  check_cell-agree [] a b h ma mb p = absurd ma
  check_cell-agree (first ∷ rest) a b h ma mb p =
      let (panned, e, h') = bind_ok (any_pan (first ∷ rest)) _ h in
      elim (Bool-cases panned) [
        | inr plain ↦ cc (any_pan-none (first ∷ rest) b (e ∙ ap ok plain) mb)
        | inl some_pan ↦
            let agree : agree_with first rest ≡ ok tt = rw some_pan at h' in
            members first rest a b agree ma mb
      ]
    where
      members :
          (first : Route F) (rest : List (Route F)) (a b : Route F)
          → agree_with first rest ≡ ok tt
          → In a (first ∷ rest)
          → In b (first ∷ rest)
          → (a ≡ b) ⊎ (same_claim a b ≡ true)
      members first rest a b agree (inl p) (inl q) = inl (sym p ∙ q)
      members first rest a b agree (inl p) (inr q) =
          inr (rw (← p) (agree_with-each first rest b agree q))
      members first rest a b agree (inr p) (inl q) =
          inr (rw (← q) (same_claim_sym first a (agree_with-each first rest a agree p)))
      members first rest a b agree (inr p) (inr q) = inr (
          same_claim_trans a first b (same_claim_sym first a (agree_with-each first rest a agree p))
            (agree_with-each first rest b agree q))

  -- What an accepted desk with a balance has scanned.
  record Scanned (routes : List (Route F)) : Type 0 where
    final : Links × Dict Cell (List (Route F))
    noted : All (Noted final.0 final.1) routes
    checked : check_claims (values final.1) ≡ ok tt

  validate-Scanned :
      (routes : List (Route F)) (panned : Route F)
      → validate_route_pan routes ≡ ok tt
      → In panned routes
      → int_eq panned.pan (pos 0) ≡ false
      → Scanned routes
  unfolding validate_route_pan
  validate-Scanned routes route h m p =
      let (panned, e, h') = bind_ok (any_pan routes) _ h in
      elim (Bool-cases panned) [
        | inr plain ↦ cc (any_pan-none routes route (e ∙ ap ok plain) m)
        | inl some_pan ↦
            let scan = rw some_pan at h' in
            let (final, scanned, checked) = bind_ok (scan_routes routes [] []) _ scan in
            record {
              final = final;
              noted = (scan_lem routes [] [] final scanned).1;
              checked = checked;
            }
      ]

  -- In an accepted desk with a nonzero balance, one assignment of flags to channel pairs meets the
  -- link requirements of every route: no two routes disagree on a pair.
  pub validate_route_pan-Linked :
      (routes : List (Route F)) (panned : Route F)
      → validate_route_pan routes ≡ ok tt
      → In panned routes
      → int_eq panned.pan (pos 0) ≡ false
      → (links : Links) × All (Linked links) routes
  validate_route_pan-Linked routes panned h m p =
      let s = validate-Scanned routes panned h m p in
      (
        s.final.0,
        All-map (Noted s.final.0 s.final.1) (Linked s.final.0) routes
            (Noted-Linked s.final.0 s.final.1) s.noted,
      )

  -- In an accepted desk, a route with a nonzero balance and any other route that claims the same
  -- matrix cell, folded through their links, state the same level and balance.
  pub validate_route_pan-agree :
      (routes : List (Route F)) (a b : Route F) (cell : Cell)
      → validate_route_pan routes ≡ ok tt
      → In a routes
      → In b routes
      → int_eq b.pan (pos 0) ≡ false
      → ClaimsCell a cell
      → ClaimsCell b cell
      → (a ≡ b) ⊎ (same_claim a b ≡ true)
  validate_route_pan-agree routes a b cell h ma mb p ca cb =
      let s = validate-Scanned routes b h mb p in
      let (xs, la, ia) =
        Noted-ClaimsCell s.final.0 s.final.1 a cell (All-In _ routes a s.noted ma) ca in
      let (ys, lb, ib) =
        Noted-ClaimsCell s.final.0 s.final.1 b cell (All-In _ routes b s.noted mb) cb in
      let same : ys ≡ xs = some-injective ys xs (sym lb ∙ la) in
      check_cell-agree xs a b
        (check_claims-each (values s.final.1) xs s.checked (lookup-values cell xs s.final.1 la)) ia
        (rw same at ib) p
