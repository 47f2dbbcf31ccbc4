-- ===== src/Model/Links.antt =====
-- src/oscmix_desk/model.py: what the first loop of `validate_route_pan` has noted when it ends.
use oscmix_desk.Common.{
  ℕ, ◌≡◌, ap, sym, ◌∙◌, some, List, [], ◌∷◌, ok, bind_ok, ok-injective, All, Bool-cases,
  Option-cases, inl, inr, bool_eq_iff, pair_eq, ℕ_eq, bool_eq,
}
use mathlib.Core.Path.{subst}
use oscmix_desk.Common.Dict.{
  Dict, lookup, insert, lookup-insert_self, lookup-insert_keep, append_at, Listed, append_at-Listed,
  append_at-Listed_keep,
}
use oscmix_desk.Model.{
  Kind, Kind_eq, Route, Link, Links, Cell, link_requirements, declare_link, cell_key, scan_routes,
}

-- The links that hold a requirement.
abbrev pub Holds : Links → Link → Type 0
Holds links (kind, channel, linked) = lookup (kind, channel) links ≡ some linked

declare_link-Holds :
    (link other : Link) (links : Links) {after : Links}
    → declare_link link links ≡ ok after
    → Holds after link × (Holds links other → Holds after other)
unfolding declare_link
declare_link-Holds (kind, channel, linked) (k, c, l) links {after} h =
    let key : Kind × ℕ = (kind, channel) in
    elim (Option-cases (lookup key links)) [
      | inl e ↦
          let set : insert key linked links ≡ after = ok-injective (rw (e, declare_link) at h) in
          (
            rw (sym set) (lookup-insert_self key linked links),
            rw (sym set) (lookup-insert_keep key (k, c) linked l links (inl e)),
          )
      | inr (before, e) ↦ elim (Bool-cases (bool_eq before linked)) [
        | inl same ↦
            let set : insert key linked links ≡ after =
              ok-injective (rw same at (rw (e, declare_link) at h)) in
            let held = e ∙ ap some ((bool_eq_iff before linked).0 same) in
            (
              rw (sym set) (lookup-insert_self key linked links),
              rw (sym set) (lookup-insert_keep key (k, c) linked l links (inr held)),
            )
        | inr differ ↦ cc (rw differ at (rw (e, declare_link) at h))
      ]
    ]

-- The link requirements of a route hold.
abbrev pub Linked : {F : Type 0} → Links → Route F → Type 0
Linked {F} links route =
    (from : Link) × (to : Link) × (link_requirements route ≡ ok (from, to))
    × Holds links from
    × Holds links to

module _ {F : Type 0} where
  -- A route's own cell, if its link requirements can be read.
  abbrev pub ClaimsCell : Route F → Cell → Type 0
  ClaimsCell route cell =
      (from : Link) × (to : Link) × (link_requirements route ≡ ok (from, to))
      × (cell_key route from to ≡ ok cell)

  -- What the scan has noted of a route.
  pub record Noted (links : Links) (claims : Dict Cell (List (Route F))) (route : Route F)
      : Type 0 where
    pub from : Link
    pub to : Link
    pub cell : Cell
    pub requires : link_requirements route ≡ ok (from, to)
    pub holds_from : Holds links from
    pub holds_to : Holds links to
    pub keyed : cell_key route from to ≡ ok cell
    pub listed : Listed claims cell route

  -- Nothing that is noted is lost.
  pub record Grows (links : Links) (claims : Dict Cell (List (Route F))) (links' : Links)
      (claims' : Dict Cell (List (Route F))) : Type 0 where
    pub links_kept : (link : Link) → Holds links link → Holds links' link
    pub claims_kept :
        (cell : Cell) (route : Route F) → Listed claims cell route → Listed claims' cell route

  Grows-refl :
      (links : Links) (claims : Dict Cell (List (Route F))) → Grows links claims links claims
  Grows-refl links claims = record { links_kept = λ link k. k; claims_kept = λ cell route k. k }

  Grows-step :
      (route : Route F) (cell : Cell) (from to : Link) (links l1 l2 links' : Links)
      (claims claims' : Dict Cell (List (Route F)))
      → declare_link from links ≡ ok l1
      → declare_link to l1 ≡ ok l2
      → Grows l2 (append_at cell route claims) links' claims'
      → Grows links claims links' claims'
  Grows-step route cell from to links l1 l2 links' claims claims' d1 d2 g = record {
    links_kept = λ link k.
        g.links_kept link
          ((declare_link-Holds to link l1 d2).1 ((declare_link-Holds from link links d1).1 k));
    claims_kept = λ c r k. g.claims_kept c r (append_at-Listed_keep cell c route r claims k);
  }

  pub scan_lem :
      (routes : List (Route F)) (links : Links) (claims : Dict Cell (List (Route F)))
      (final : Links × Dict Cell (List (Route F)))
      → scan_routes routes links claims ≡ ok final
      → Grows links claims final.0 final.1 × All (Noted final.0 final.1) routes
  unfolding scan_routes
  scan_lem [] links claims final h =
      subst (λ t. Grows links claims t.0 t.1 × Unit {0}) (ok-injective h)
        (Grows-refl links claims, tt)
  scan_lem (route ∷ routes) links claims final h =
      let ((from, to), requires, h1) = bind_ok (link_requirements route) _ h in
      let (l1, d1, h2) = bind_ok (declare_link from links) _ h1 in
      let (l2, d2, h3) = bind_ok (declare_link to l1) _ h2 in
      let (cell, keyed, h4) = bind_ok (cell_key route from to) _ h3 in
      let (g, noted) = scan_lem routes l2 (append_at cell route claims) final h4 in
      (
        Grows-step route cell from to links l1 l2 final.0 claims final.1 d1 d2 g,
        (
          record {
            from = from;
            to = to;
            cell = cell;
            requires = requires;
            holds_from =
                g.links_kept from
                  ((declare_link-Holds to from l1 d2).1 (declare_link-Holds from from links d1).0);
            holds_to = g.links_kept to (declare_link-Holds to to l1 d2).0;
            keyed = keyed;
            listed = g.claims_kept cell route (append_at-Listed cell route claims);
          },
          noted,
        ),
      )

  -- A noted route is listed under the cell that it claims.
  pub Noted-ClaimsCell :
      (links : Links) (claims : Dict Cell (List (Route F))) (route : Route F) (cell : Cell)
      → Noted links claims route
      → ClaimsCell route cell
      → Listed claims cell route
  Noted-ClaimsCell links claims route cell n (from, to, requires, keyed) =
      let ends : ◌≡◌ {A = Link × Link} (n.from, n.to) (from, to) =
        ok-injective (sym n.requires ∙ requires) in
      let same : n.cell ≡ cell =
        ok-injective
          (sym n.keyed ∙ (ap (λ (p : Link × Link). cell_key route p.0 p.1) ends ∙ keyed)) in
      subst (λ c. Listed claims c route) same n.listed

  pub Noted-Linked :
      (links : Links) (claims : Dict Cell (List (Route F))) (route : Route F)
      → Noted links claims route
      → Linked links route
  Noted-Linked links claims route n = (n.from, n.to, n.requires, n.holds_from, n.holds_to)
