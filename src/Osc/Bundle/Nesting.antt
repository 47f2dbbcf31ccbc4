-- ===== src/Osc/Bundle/Nesting.antt =====
-- src/oscmix_desk/osc.py: bundles within bundles, given as a tree, and the packets they frame.
use oscmix_desk.Common.{
  ℕ, zero, suc, ◌+◌, ◌%◌, ◌^◌, ◌≤◌, ◌<◌, ◌≡◌, refl, ap, sym, ◌∙◌, true, none, List, [], ◌∷◌, ◌++◌,
  arith, length, length-append, drop-append, take-le, ok, nat_eq_iff, lt→leb-false, le→ltb-false,
}
use mathlib.Core.List.{append_assoc, append-nil}
use oscmix_desk.Osc.Bytes.{Bytes, big_endian, slice}
use oscmix_desk.Osc.Bytes.Strings.{slice-append}
use oscmix_desk.Osc.Bytes.Words.{unpack_word-length}
use oscmix_desk.Osc.Bundle.{
  starts_with, bundle_tag, bundle_elements, iter_pending, iter_osc_messages, size_at, yields, opens,
  opened, inspect,
}
use oscmix_desk.Osc.Bundle.Framing.{
  weight, weight-append, inspect-Fits, IsMessage, iter-yields, iter-opens,
}

-- A delivery as a sender builds it: a message, or a bundle with its time tag.
mutual
  pub data Packet : Type 0 where
    message : Bytes → Packet
    bundle : Bytes → Packets → Packet

  pub data Packets : Type 0 where
    nil : Packets
    cons : Packet → Packets → Packets

-- The bytes of a packet, and of the elements of a bundle with their sizes.
abbrev mutual
  pub framed : Packet → Bytes
  framed (message raw) = raw
  framed (bundle time elements) = bundle_tag ++ (time ++ framed_all elements)

  pub framed_all : Packets → Bytes
  framed_all nil = []
  framed_all (cons p ps) = big_endian (length (framed p)) ++ (framed p ++ framed_all ps)

-- The messages of a packet, depth first and in order.
abbrev mutual
  pub leaves : Packet → List Bytes
  leaves (message raw) = raw ∷ []
  leaves (bundle time elements) = leaves_all elements

  pub leaves_all : Packets → List Bytes
  leaves_all nil = []
  leaves_all (cons p ps) = leaves p ++ leaves_all ps

-- Messages are words that do not look like a bundle, time tags have eight bytes, and an element is
-- not empty and has a size that an Int32 holds.
abbrev mutual
  pub IsFramed : Packet → Type 0
  IsFramed (message raw) = IsMessage raw
  IsFramed (bundle time elements) = (length time ≡ 8) × AreFramed elements

  pub AreFramed : Packets → Type 0
  AreFramed nil = Unit {0}
  AreFramed (cons p ps) =
      IsFramed p × (0 < length (framed p)) × (length (framed p) < 2 ^ 31) × AreFramed ps

-- The packets of a list, and two lists joined.
abbrev framed_each : Packets → List Bytes
framed_each nil = []
framed_each (cons p ps) = framed p ∷ framed_each ps

abbrev join : Packets → Packets → Packets
join nil qs = qs
join (cons p ps) qs = cons p (join ps qs)

abbrev AllFramed : Packets → Type 0
AllFramed nil = Unit {0}
AllFramed (cons p ps) = IsFramed p × AllFramed ps

framed_each-join : (ps qs : Packets) → framed_each (join ps qs) ≡ framed_each ps ++ framed_each qs
framed_each-join nil qs = refl
framed_each-join (cons p ps) qs = ap (λ r. framed p ∷ r) (framed_each-join ps qs)

leaves_all-join : (ps qs : Packets) → leaves_all (join ps qs) ≡ leaves_all ps ++ leaves_all qs
leaves_all-join nil qs = refl
leaves_all-join (cons p ps) qs =
    rw (leaves_all-join ps qs) (sym (append_assoc (leaves p) (leaves_all ps) (leaves_all qs)))

AllFramed-join : (ps qs : Packets) → AreFramed ps → AllFramed qs → AllFramed (join ps qs)
AllFramed-join nil qs h k = k
AllFramed-join (cons p ps) qs h k = (h.0, AllFramed-join ps qs h.3 k)

length-big_endian : (n : ℕ) → length (big_endian n) ≡ 4
unfolding big_endian
length-big_endian n = refl

length-framed_all :
    (p : Packet) (ps : Packets)
    → length (framed_all (cons p ps)) ≡ 4 + length (framed p) + length (framed_all ps)
length-framed_all p ps = omega (
  arith,
  length-append (big_endian (length (framed p))) (framed p ++ framed_all ps),
  length-append (framed p) (framed_all ps),
  length-big_endian (length (framed p)),
)

length-bundle :
    (time : Bytes) (ps : Packets)
    → length time ≡ 8
    → length (framed (bundle time ps)) ≡ 16 + length (framed_all ps)
length-bundle time ps h = omega (arith, length-append time (framed_all ps))

mutual
  framed_aligned : (p : Packet) → IsFramed p → length (framed p) % 4 ≡ 0
  framed_aligned (message raw) h = h.0
  framed_aligned (bundle time ps) h =
      omega (arith, length-bundle time ps h.0, framed_all_aligned ps h.1)

  framed_all_aligned : (ps : Packets) → AreFramed ps → length (framed_all ps) % 4 ≡ 0
  framed_all_aligned nil h = omega arith
  framed_all_aligned (cons p ps) h =
      omega (arith, length-framed_all p ps, framed_aligned p h.0, framed_all_aligned ps h.3)

-- One round of the inner loop at a sound element.
bundle_elements-step :
    (fuel : ℕ) (current : Bytes) (offset size : ℕ) (rest : List Bytes)
    → size_at current offset ≡ size
    → 0 < size
    → size % 4 ≡ 0
    → offset + 4 + size ≤ length current
    → bundle_elements fuel current (offset + 4 + size) ≡ ok rest
    → bundle_elements (suc fuel) current offset
      ≡ ok (slice current (offset + 4) (offset + 4 + size) ∷ rest)
unfolding bundle_elements
bundle_elements-step fuel current offset size rest e p m b h = rw e (rw h (ground arith))

bundle_elements-end :
    (fuel : ℕ) (current : Bytes) (offset : ℕ)
    → length current ≡ offset
    → bundle_elements (suc fuel) current offset ≡ ok []
unfolding bundle_elements
bundle_elements-end fuel current offset e =
    rw (lt→leb-false (offset + 4) (length current) (omega arith))

module _ (front : Bytes) (p : Packet) (ps : Packets) where
  abbrev cut : Bytes
  cut = front ++ framed_all (cons p ps)

  abbrev past : Bytes
  past = front ++ (big_endian (length (framed p)) ++ framed p)

  past_lem : past ++ framed_all ps ≡ cut
  past_lem =
      append_assoc front (big_endian (length (framed p)) ++ framed p) (framed_all ps)
      ∙ ap (λ r. front ++ r)
          (append_assoc (big_endian (length (framed p))) (framed p) (framed_all ps))

  length-past : length past ≡ length front + 4 + length (framed p)
  length-past = omega (
    arith,
    length-append front (big_endian (length (framed p)) ++ framed p),
    length-append (big_endian (length (framed p))) (framed p),
    length-big_endian (length (framed p)),
  )

  length-cut : length cut ≡ length front + 4 + length (framed p) + length (framed_all ps)
  length-cut = omega (arith, length-append front (framed_all (cons p ps)), length-framed_all p ps)

  size_at-cut : length (framed p) < 2 ^ 31 → size_at cut (length front) ≡ length (framed p)
  unfolding size_at
  size_at-cut h = rw (drop-append front (framed_all (cons p ps))) (
      rw
        (take-le (big_endian (length (framed p))) (framed p ++ framed_all ps) 4
          (sym (length-big_endian (length (framed p)))))
        (rw (unpack_word-length (length (framed p)) h)))

  slice-cut : slice cut (length front + 4) (length front + 4 + length (framed p)) ≡ framed p
  slice-cut =
      rw (sym (append_assoc front (big_endian (length (framed p))) (framed p ++ framed_all ps))) (
        slice-append (front ++ big_endian (length (framed p))) (framed p) (framed_all ps) _ _
          (omega (
            arith,
            length-append front (big_endian (length (framed p))),
            length-big_endian (length (framed p)),
          ))
          refl)

bundle_elements-framed :
    (ps : Packets) (front : Bytes) (fuel : ℕ)
    → AreFramed ps
    → length (framed_all ps) < fuel
    → bundle_elements fuel (front ++ framed_all ps) (length front) ≡ ok (framed_each ps)
bundle_elements-framed nil front zero h k = elim k [ ]
bundle_elements-framed nil front (suc fuel) h k =
    bundle_elements-end fuel (front ++ []) (length front) (ap length (append-nil front))
bundle_elements-framed (cons p ps) front zero h k = elim k [ ]
bundle_elements-framed (cons p ps) front (suc fuel) h k =
    let rest : bundle_elements fuel (cut front p ps) (length front + 4 + length (framed p))
        ≡ ok (framed_each ps) =
      rw (past_lem front p ps, length-past front p ps) at
        (bundle_elements-framed ps (past front p ps) fuel h.3
          (omega (arith, length-framed_all p ps))) in
    bundle_elements-step fuel (cut front p ps) (length front) (length (framed p)) (framed_each ps)
      (size_at-cut front p ps h.2) h.1 (framed_aligned p h.0) (omega (arith, length-cut front p ps))
      rest
    ∙ ap (λ r. ok (r ∷ framed_each ps)) (slice-cut front p ps)

inspect-message : (raw : Bytes) → IsMessage raw → inspect raw ≡ yields
unfolding inspect
inspect-message raw h = rw ((nat_eq_iff (length raw % 4) 0).1 h.0) (rw h.1)

inspect-opens :
    (current : Bytes) (elements : List Bytes)
    → length current % 4 ≡ 0
    → starts_with current bundle_tag ≡ true
    → 16 ≤ length current
    → bundle_elements (suc (length current)) current 16 ≡ ok elements
    → inspect current ≡ opens elements
unfolding inspect
inspect-opens current elements a t l e =
    rw ((nat_eq_iff (length current % 4) 0).1 a)
      (rw t (rw (le→ltb-false (length current) 16 l) (rw (e, opened))))

starts_with-bundle : (rest : Bytes) → starts_with (bundle_tag ++ rest) bundle_tag ≡ true
unfolding starts_with
starts_with-bundle rest = refl

inspect-bundle :
    (time : Bytes) (ps : Packets)
    → IsFramed (bundle time ps)
    → inspect (framed (bundle time ps)) ≡ opens (framed_each ps)
inspect-bundle time ps h =
    inspect-opens (framed (bundle time ps)) (framed_each ps) (framed_aligned (bundle time ps) h)
      (starts_with-bundle (time ++ framed_all ps)) (omega (arith, length-bundle time ps h.0))
      (let start : length (bundle_tag ++ time) ≡ 16 = omega (arith, h.0) in
        rw start at (
          bundle_elements-framed ps (bundle_tag ++ time) (suc (length (framed (bundle time ps))))
            h.1 (omega (arith, length-bundle time ps h.0))))

iter-framed :
    (fuel : ℕ) (ps : Packets)
    → AllFramed ps
    → weight (framed_each ps) < fuel
    → iter_pending fuel (framed_each ps) ≡ (leaves_all ps, none)
iter-framed zero ps h k = elim k [ ]
iter-framed (suc fuel) nil h k = unfold iter_pending in refl
iter-framed (suc fuel) (cons (message raw) ps) h k =
    iter-yields fuel raw (framed_each ps) (inspect-message raw h.0)
    ∙ rw (iter-framed fuel ps h.1 (omega arith))
iter-framed (suc fuel) (cons (bundle time es) ps) h k =
    let e = inspect-bundle time es h.0 in
    let fits : weight (framed_each es) + 16 ≤ length (framed (bundle time es)) =
      rw e at (inspect-Fits (framed (bundle time es))) in
    let lighter : weight (framed_each (join es ps)) < fuel =
      rw (framed_each-join es ps)
        (omega (arith, weight-append (framed_each es) (framed_each ps))) in
    iter-opens fuel (framed (bundle time es)) (framed_each ps) (framed_each es) e
    ∙ (ap (λ r. iter_pending fuel r) (sym (framed_each-join es ps))
        ∙ (iter-framed fuel (join es ps) (AllFramed-join es ps h.0.1 h.1) lighter
            ∙ ap (λ (r : List Bytes). (r, none)) (leaves_all-join es ps)))

-- From the bytes of a message or of bundles nested to any depth, `iter_osc_messages` yields the
-- messages, depth first and in the order in which they were framed, and ends without an error.
pub iter_osc_messages-framed :
    (p : Packet) → IsFramed p → iter_osc_messages (framed p) ≡ (leaves p, none)
unfolding iter_osc_messages
iter_osc_messages-framed p h =
    iter-framed (length (framed p) + 2) (cons p nil) (h, tt) (omega arith)
    ∙ ap (λ (r : List Bytes). (r, none)) (append-nil (leaves p))
