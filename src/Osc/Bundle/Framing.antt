-- ===== src/Osc/Bundle/Framing.antt =====
-- src/oscmix_desk/osc.py: what `iter_osc_messages` yields, and that it ends.
use oscmix_desk.Common.{
  ℕ, zero, suc, ◌+◌, ◌-◌, ◌%◌, ◌≤◌, ◌<◌, ◌≡◌, ◌≢◌, refl, false, Option, none, some, List, [], ◌∷◌,
  ◌++◌, arith, length, drop, All, length-take, length-drop, ok, err, Result-cases, Bool-cases, inl,
  inr, ◌⊎◌, ◌↔◌, ◌∙◌, ap, bind_ok, ok-injective, nat_eq, nat_eq_iff, ltb, ltb-false→le,
}
use oscmix_desk.Osc.Bytes.{slice, Bytes, OscError, out_of_fuel}
use oscmix_desk.Osc.Bundle.{
  starts_with, bundle_tag, bundle_elements, iter_pending, iter_osc_messages, decode_each,
  decode_delivery, size_at, Round, raises, yields, opens, opened, inspect,
}
use mathlib.Core.Path.{subst}
use oscmix_desk.Osc.Message.{Message, FloatCodec, decode_osc}

-- The bytes still to look at, and one for each packet.
abbrev pub weight : List Bytes → ℕ
weight [] = 0
weight (packet ∷ pending) = suc (length packet) + weight pending

pub weight-append : (xs ys : List Bytes) → weight (xs ++ ys) ≡ weight xs + weight ys
weight-append [] ys = omega arith
weight-append (x ∷ xs) ys = omega (arith, weight-append xs ys)

length-slice :
    (current : Bytes) (i n : ℕ) → i + n ≤ length current → length (slice current i (i + n)) ≡ n
length-slice current i n h =
    let e : i + n - i ≡ n = omega arith in
    rw e (length-take n (drop i current) (omega (arith, length-drop i current)))

-- The elements of a bundle, with four bytes of size for each, fit behind the offset.
elements_bound :
    (fuel : ℕ) (current : Bytes) (offset : ℕ) {elements : List Bytes}
    → bundle_elements fuel current offset ≡ ok elements
    → offset ≤ length current
    → weight elements + offset ≤ length current
unfolding bundle_elements
elements_bound zero current offset h k = cc
elements_bound (suc fuel) current offset h k =
    let after : ℕ = offset + 4 + size_at current offset in
    elim (Result-cases (bundle_elements fuel current after)) [
      | inl (rest, e) ↦ ground (
        arith,
        e,
        elements_bound fuel current after {elements = rest} e,
        length-slice current (offset + 4) (size_at current offset),
      )
      | inr (x, e) ↦ ground (arith, e)
    ]

elements_fuel :
    (fuel : ℕ) (current : Bytes) (offset : ℕ)
    → length current < offset + fuel
    → offset ≤ length current
    → bundle_elements fuel current offset ≢ err out_of_fuel
unfolding bundle_elements
elements_fuel zero current offset k b h = absurd (omega arith)
elements_fuel (suc fuel) current offset k b h =
    let after : ℕ = offset + 4 + size_at current offset in
    elim (Result-cases (bundle_elements fuel current after)) [
      | inl (rest, e) ↦ ground (arith, e)
      | inr (x, e) ↦ ground (arith, e, elements_fuel fuel current after)
    ]

-- A packet that the generator yields: whole words, and no bundle.
abbrev pub IsMessage : Bytes → Type 0
IsMessage raw = (length raw % 4 ≡ 0) × (starts_with raw bundle_tag ≡ false)

-- What a round says of the packet that it took.
abbrev pub Fits : Bytes → Round → Type 0
Fits current (raises e) = e ≢ out_of_fuel
Fits current yields = IsMessage current
Fits current (opens elements) = weight elements + 16 ≤ length current

opened-Fits :
    (current : Bytes)
    → 16 ≤ length current
    → Fits current (opened (bundle_elements (suc (length current)) current 16))
unfolding opened
opened-Fits current k = elim (Result-cases (bundle_elements (suc (length current)) current 16)) [
  | inl (es, e) ↦ rw (e, opened) (elements_bound (suc (length current)) current 16 e k)
  | inr (x, e) ↦
      rw (e, opened)
        (λ w. elements_fuel (suc (length current)) current 16 (omega arith) k (e ∙ ap err w))
]

pub inspect-Fits : (current : Bytes) → Fits current (inspect current)
unfolding inspect
inspect-Fits current = elim (Bool-cases (nat_eq (length current % 4) 0)) [
  | inr odd ↦ rw odd (λ w. cc)
  | inl aligned ↦ elim (Bool-cases (starts_with current bundle_tag)) [
    | inr plain ↦ rw aligned (rw plain ((nat_eq_iff _ 0).0 aligned, plain))
    | inl tagged ↦ elim (Bool-cases (ltb (length current) 16)) [
      | inl short ↦ rw aligned (rw tagged (rw short (λ w. cc)))
      | inr long ↦ rw aligned (rw tagged (rw long (opened-Fits current (ltb-false→le _ _ long))))
    ]
  ]
]

-- The three rounds of the outer loop.
pub iter-raises :
    (fuel : ℕ) (current : Bytes) (pending : List Bytes) (e : OscError)
    → inspect current ≡ raises e
    → iter_pending (suc fuel) (current ∷ pending) ≡ ([], some e)
unfolding iter_pending
iter-raises fuel current pending e h = rw (h, iter_pending)

pub iter-yields :
    (fuel : ℕ) (current : Bytes) (pending : List Bytes)
    → inspect current ≡ yields
    → iter_pending (suc fuel) (current ∷ pending)
      ≡ (current ∷ (iter_pending fuel pending).0, (iter_pending fuel pending).1)
unfolding iter_pending
iter-yields fuel current pending h = rw (h, iter_pending)

pub iter-opens :
    (fuel : ℕ) (current : Bytes) (pending elements : List Bytes)
    → inspect current ≡ opens elements
    → iter_pending (suc fuel) (current ∷ pending) ≡ iter_pending fuel (elements ++ pending)
unfolding iter_pending
iter-opens fuel current pending elements h = rw (h, iter_pending)

Round-cases :
    (r : Round)
    → ((e : OscError) × (r ≡ raises e)) ⊎ (r ≡ yields) ⊎ ((es : List Bytes) × (r ≡ opens es))
Round-cases (raises e) = inl (e, refl)
Round-cases yields = inr (inl refl)
Round-cases (opens es) = inr (inr (es, refl))

iter_fuel :
    (fuel : ℕ) (pending : List Bytes)
    → weight pending < fuel
    → (iter_pending fuel pending).1 ≢ some out_of_fuel
iter_fuel zero pending k = elim k [ ]
iter_fuel (suc fuel) [] k = unfold iter_pending in (λ h. cc)
iter_fuel (suc fuel) (current ∷ pending) k = elim (Round-cases (inspect current)) [
  | inl (e, q) ↦
      let fits = rw q at (inspect-Fits current) in
      rw (iter-raises fuel current pending e q) (λ h. fits (cc))
  | inr (inl q) ↦ rw (iter-yields fuel current pending q) (iter_fuel fuel pending (omega arith))
  | inr (inr (es, q)) ↦
      let fits : weight es + 16 ≤ length current = rw q at (inspect-Fits current) in
      rw (iter-opens fuel current pending es q)
        (iter_fuel fuel (es ++ pending) (omega (arith, weight-append es pending)))
]

iter_yields : (fuel : ℕ) (pending : List Bytes) → All IsMessage (iter_pending fuel pending).0
iter_yields zero pending = unfold iter_pending in tt
iter_yields (suc fuel) [] = unfold iter_pending in tt
iter_yields (suc fuel) (current ∷ pending) = elim (Round-cases (inspect current)) [
  | inl (e, q) ↦ rw (iter-raises fuel current pending e q) tt
  | inr (inl q) ↦
      rw (iter-yields fuel current pending q)
        (rw q at (inspect-Fits current), iter_yields fuel pending)
  | inr (inr (es, q)) ↦ rw (iter-opens fuel current pending es q) (iter_yields fuel (es ++ pending))
]

-- Iterating a datagram ends: the fuel never runs out.
pub iter_osc_messages_ends : (datagram : Bytes) → (iter_osc_messages datagram).1 ≢ some out_of_fuel
unfolding iter_osc_messages
iter_osc_messages_ends datagram = iter_fuel (length datagram + 2) (datagram ∷ []) (omega arith)

-- Every packet that it yields is a whole number of words and no bundle.
pub iter_osc_messages_yields : (datagram : Bytes) → All IsMessage (iter_osc_messages datagram).0
unfolding iter_osc_messages
iter_osc_messages_yields datagram = iter_yields (length datagram + 2) (datagram ∷ [])

module _ {F : Type 0} (codec : FloatCodec F) where
  -- The packets decode, one by one, to the messages.
  abbrev pub Decodes : List Bytes → List (Message F) → Type 0
  Decodes [] [] = Unit {0}
  Decodes [] (message ∷ messages) = ⊥
  Decodes (raw ∷ rest) [] = ⊥
  Decodes (raw ∷ rest) (message ∷ messages) =
      (decode_osc codec raw ≡ ok message) × Decodes rest messages

  decode_each_sound :
      (packets : List Bytes) (ending : Option OscError) (messages : List (Message F))
      → decode_each codec packets ending ≡ ok messages
      → (ending ≡ none) × Decodes packets messages
  unfolding decode_each
  decode_each_sound [] none [] h = (refl, tt)
  decode_each_sound [] none (m ∷ ms) h = cc
  decode_each_sound [] (some e) ms h = cc
  decode_each_sound (raw ∷ rest) ending ms h =
      let (message, decoded, h') = bind_ok (decode_osc codec raw) _ h in
      let (messages, tail, e) = bind_ok (decode_each codec rest ending) _ h' in
      let (ends, all) = decode_each_sound rest ending messages tail in
      (ends, subst (λ v. Decodes (raw ∷ rest) v) (ok-injective e) (decoded, all))

  decode_each_complete :
      (packets : List Bytes) (messages : List (Message F))
      → Decodes packets messages
      → decode_each codec packets none ≡ ok messages
  unfolding decode_each
  decode_each_complete [] [] h = refl
  decode_each_complete [] (m ∷ ms) h = absurd h
  decode_each_complete (raw ∷ rest) [] h = absurd h
  decode_each_complete (raw ∷ rest) (m ∷ ms) h = rw h.0 (rw (decode_each_complete rest ms h.1))

  -- A delivery is decoded exactly when its framing is sound to the end and every packet in it is a
  -- message; its messages are then those packets decoded, in order. No part of a delivery comes
  -- out of one that is malformed anywhere.
  pub decode_delivery_iff :
      (data' : Bytes) (messages : List (Message F))
      → (decode_delivery codec data' ≡ ok messages)
        ↔ (((iter_osc_messages data').1 ≡ none) × Decodes (iter_osc_messages data').0 messages)
  unfolding decode_delivery
  decode_delivery_iff data' messages = (
    decode_each_sound (iter_osc_messages data').0 (iter_osc_messages data').1 messages,
    λ (ends, all). rw ends (decode_each_complete (iter_osc_messages data').0 messages all),
  )
