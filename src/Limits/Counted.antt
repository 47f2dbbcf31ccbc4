-- ===== src/Limits/Counted.antt =====
-- src/oscmix_desk/limits.py: which outputs `_problem` counts for Room EQ.
use oscmix_desk.Common.{
  suc, ◌%◌, nat_eq, subst, ◌&&◌, ◌||◌, ℕ, ◌≡◌, ◌⊎◌, refl, sym, ◌∙◌, inl, inr, true, some, List, [],
  ◌∷◌, ◌++◌, arith, leb, ◌==◌, ℕ_eq, String_eq, nat_eq_iff, Bool-cases,
}
use mathlib.Core.Option.{some-injective}
use oscmix_desk.Common.Int.{pos, int_eq}
use oscmix_desk.Common.Sets.{contains, contains_same, contains-append, List_eq}
use oscmix_desk.Common.Sort.{dedup, contains-sort_by, In-dedup}
use oscmix_desk.Common.Dict.{lookup}
use oscmix_desk.Paths.{Segment_eq}
use oscmix_desk.Limits.{linked_lefts, Values, on_at, switched_on, linked_on, room_channels, is_on}

-- A channel whose value is not zero is one of those that are on.
on_at-switched_on :
    (values : Values) (channel : ℕ)
    → on_at values channel ≡ true
    → contains (switched_on values) channel ≡ true
unfolding switched_on lookup contains
on_at-switched_on [] channel h = h
on_at-switched_on ((c, n) ∷ values) channel h = elim (Bool-cases (c == channel)) [
  | inl same ↦ let on : is_on n ≡ true = rw (on_at, same) at h in rw (on, same)
  | inr other ↦
      let later = on_at-switched_on values channel (rw (on_at, other) at h) in
      ground (arith, later, other)
]

-- Both channels of a linked pair that runs Room EQ on either side are counted.
linked_on-contains :
    (values : Values) (linked : List ℕ) (left channel : ℕ)
    → contains linked left ≡ true
    → (channel ≡ left) ⊎ (channel ≡ suc left)
    → (on_at values left || on_at values (suc left)) ≡ true
    → contains (linked_on values linked) channel ≡ true
unfolding linked_on contains
linked_on-contains values [] left channel m side on = cc
linked_on-contains values (l ∷ linked) left channel m side on = elim (Bool-cases (l == left)) [
  | inr other ↦
      let later =
        linked_on-contains values linked left channel (ground (arith, m, other)) side on in
      elim (Bool-cases (on_at values l || on_at values (suc l))) [
        | inl runs ↦ rw runs (ground (arith, later))
        | inr silent ↦ rw silent later
      ]
  | inl same ↦
      let here : l ≡ left = (nat_eq_iff l left).0 same in
      let runs : (on_at values l || on_at values (suc l)) ≡ true =
        subst (λ k. (on_at values k || on_at values (suc k)) ≡ true) (sym here) on in
      rw runs (ground (arith, here, side))
]

pub linked_lefts-contains :
    (values : Values) (left : ℕ)
    → nat_eq (left % 2) 1 ≡ true
    → lookup left values ≡ some (pos 1)
    → contains (linked_lefts values) left ≡ true
unfolding linked_lefts contains lookup
linked_lefts-contains [] left odd found = cc
linked_lefts-contains ((c, n) ∷ values) left odd found = elim (Bool-cases (c == left)) [
  | inr other ↦
      let later = linked_lefts-contains values left odd (rw (lookup, other) at found) in
      elim (Bool-cases (nat_eq (c % 2) 1 && int_eq n (pos 1))) [
        | inl counted ↦ rw counted (ground (arith, later))
        | inr skipped ↦ rw skipped later
      ]
  | inl same ↦
      let here : c ≡ left = (nat_eq_iff c left).0 same in
      let one : n ≡ pos 1 = some-injective n (pos 1) (rw (lookup, same) at found) in
      let counted : (nat_eq (c % 2) 1 && int_eq n (pos 1)) ≡ true = rw (here, one, odd) refl in
      rw counted (rw same refl)
]

contains-room_channels :
    (values : Values) (linked : List ℕ) (channel : ℕ)
    → contains (room_channels values linked) channel
      ≡ (contains (switched_on values) channel || contains (linked_on values linked) channel)
unfolding room_channels
contains-room_channels values linked channel =
    contains-sort_by leb (dedup (switched_on values ++ linked_on values linked)) channel
    ∙ contains_same (dedup (switched_on values ++ linked_on values linked))
        (switched_on values ++ linked_on values linked) channel
        (In-dedup channel (switched_on values ++ linked_on values linked))
    ∙ contains-append (switched_on values) (linked_on values linked) channel

pub room_channels-contains :
    (values : Values) (linked : List ℕ) (channel : ℕ)
    → on_at values channel ≡ true
    → contains (room_channels values linked) channel ≡ true
room_channels-contains values linked channel h =
    contains-room_channels values linked channel ∙ rw (on_at-switched_on values channel h) refl

pub room_channels_linked :
    (values : Values) (linked : List ℕ) (left channel : ℕ)
    → contains linked left ≡ true
    → (channel ≡ left) ⊎ (channel ≡ suc left)
    → (on_at values left || on_at values (suc left)) ≡ true
    → contains (room_channels values linked) channel ≡ true
room_channels_linked values linked left channel m side on =
    contains-room_channels values linked channel
    ∙ ground (arith, linked_on-contains values linked left channel m side on)
