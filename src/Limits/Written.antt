-- ===== src/Limits/Written.antt =====
-- src/oscmix_desk/limits.py: the values that the writes of a plan leave over the reported ones.
use oscmix_desk.Common.{
  ℕ, ◌≡◌, ◌⊎◌, refl, sym, ap, ◌∙◌, inl, inr, true, false, none, some, List, [], ◌∷◌, String, arith,
  if◌then◌else◌, if_true, if_false, Result, ok, ◌>>=◌, ◌==◌, ℕ_eq, String_eq, nat_eq_iff,
  Bool-cases, Option-cases, bind_ok, ok-injective,
}
use mathlib.Core.Option.{some-injective}
use oscmix_desk.Common.Int.{ℤ}
use oscmix_desk.Common.Sets.{contains, List_eq}
use oscmix_desk.Common.Dict.{lookup, insert, lookup-insert}
use oscmix_desk.Floats.{Floats}
use oscmix_desk.Osc.Message.{Value}
use oscmix_desk.Numeric.{NumberError}
use oscmix_desk.Paths.{OscPath, Segment_eq}
use oscmix_desk.Autogain.{Reports}
use oscmix_desk.Limits.{
  Values, output_path, channel_at, first_integer, written_values, reported_value, observed_values,
}

output_path_same :
    (option : String) (m n : ℕ) → (output_path option m == output_path option n) ≡ (m == n)
output_path_same option m n = ground (arith, (String_eq.beq_iff option option).1)

channel_at-none :
    (option : String) (channels : List ℕ) (path : OscPath) (channel : ℕ)
    → channel_at option channels path ≡ none
    → contains channels channel ≡ true
    → (path == output_path option channel) ≡ false
unfolding channel_at contains
channel_at-none option [] path channel h m = cc
channel_at-none option (c ∷ channels) path channel h m =
    elim (Bool-cases (output_path option c == path)) [
      | inl same ↦ cc (rw same at h)
      | inr other ↦ elim (Bool-cases (c == channel)) [
        | inr apart ↦
            channel_at-none option channels path channel (rw other at h) (ground (arith, m, apart))
        | inl here ↦ elim (Bool-cases (path == output_path option channel)) [
          | inr away ↦ away
          | inl at ↦
              let again : output_path option c ≡ path =
                ap (output_path option) ((nat_eq_iff c channel).0 here)
                ∙ sym ((List_eq.beq_iff path (output_path option channel)).0 at) in
              let found = (List_eq.beq_iff (output_path option c) path).1 again in cc
        ]
      ]
    ]

channel_at-some :
    (option : String) (channels : List ℕ) (path : OscPath) (channel : ℕ)
    → channel_at option channels path ≡ some channel
    → path ≡ output_path option channel
unfolding channel_at
channel_at-some option [] path channel h = cc
channel_at-some option (c ∷ channels) path channel h =
    elim (Bool-cases (output_path option c == path)) [
      | inl same ↦
          let at : c ≡ channel = some-injective c channel (rw same at h) in
          sym ((List_eq.beq_iff (output_path option c) path).0 same) ∙ ap (output_path option) at
      | inr other ↦ channel_at-some option channels path channel (rw other at h)
    ]

elsewhere_path :
    (path : OscPath) (option : String) (c channel : ℕ)
    → path ≡ output_path option c
    → (c == channel) ≡ false
    → (path == output_path option channel) ≡ false
elsewhere_path path option c channel here other =
    ap (λ p. p == output_path option channel) here ∙ output_path_same option c channel ∙ other

module _ {F : Type 0} ⦃fl : Floats F⦄ where
  -- the value that the writes of a plan leave a register of an output with
  unfoldable pub final_value : List (OscPath × List (Value F)) → OscPath → ℤ → Result NumberError ℤ
  unfolding first_integer
  final_value [] path before = ok before
  final_value ((q, args) ∷ writes) path before =
      if q == path
      then (first_integer args >>= λ n. final_value writes path n)
      else final_value writes path before

  written_here :
      (path : OscPath) (args : List (Value F)) (writes : List (OscPath × List (Value F)))
      (option : String) (c channel : ℕ) (v k n : ℤ)
      → path ≡ output_path option c
      → (c == channel) ≡ true
      → first_integer args ≡ ok k
      → final_value writes (output_path option channel) k ≡ ok n
      → final_value ((path, args) ∷ writes) (output_path option channel) v ≡ ok n
  unfolding final_value
  written_here path args writes option c channel v k n here same got last =
      let at : (path == output_path option channel) ≡ true =
        (List_eq.beq_iff path (output_path option channel)).1
          (here ∙ ap (output_path option) ((nat_eq_iff c channel).0 same)) in
      if_true (path == output_path option channel) _ _ at ∙ rw got last

  pub written_values_lem :
      (writes : List (OscPath × List (Value F))) (option : String) (channels : List ℕ)
      (values out : Values) (channel : ℕ) (v : ℤ)
      → contains channels channel ≡ true
      → lookup channel values ≡ some v
      → written_values writes option channels values ≡ ok out
      → (n : ℤ) × (final_value writes (output_path option channel) v ≡ ok n)
        × (lookup channel out ≡ some n)
  unfolding written_values final_value
  written_values_lem [] option channels values out channel v m found h =
      (v, refl, ap (lookup channel) (sym (ok-injective h)) ∙ found)
  written_values_lem ((path, args) ∷ writes) option channels values out channel v m found h =
      elim (Option-cases (channel_at option channels path)) [
        | inl absent ↦
            let away = channel_at-none option channels path channel absent m in
            let (n, last, held) =
              written_values_lem writes option channels values out channel v m found
                (rw (absent, written_values) at h) in
            (n, if_false (path == output_path option channel) _ _ away ∙ last, held)
        | inr (c, at) ↦
            let (k, got, rest) =
              bind_ok (first_integer args)
                (λ n. written_values writes option channels (insert c n values))
                (rw (at, written_values) at h) in
            let here : path ≡ output_path option c = channel_at-some option channels path c at in
            elim (Bool-cases (c == channel)) [
              | inl same ↦
                  let (n, last, held) =
                    written_values_lem writes option channels (insert c k values) out channel k m
                      (lookup-insert c channel k values ∙ if_true (c == channel) _ _ same) rest in
                  (n, written_here path args writes option c channel v k n here same got last, held)
              | inr other ↦
                  let (n, last, held) =
                    written_values_lem writes option channels (insert c k values) out channel v m
                      (lookup-insert c channel k values
                        ∙ (if_false (c == channel) _ _ other ∙ found))
                      rest in
                  (
                    n,
                    if_false (path == output_path option channel) _ _
                          (elsewhere_path path option c channel here other)
                        ∙ last,
                    held,
                  )
            ]
      ]

  abbrev pub reported : Reports F → String → ℕ → ℤ
  reported observed option channel = reported_value (lookup (output_path option channel) observed)

  pub observed_values_lem :
      (observed : Reports F) (option : String) (channels : List ℕ) (values : Values) (channel : ℕ)
      → (contains channels channel ≡ true)
        ⊎ (lookup channel values ≡ some (reported observed option channel))
      → lookup channel (observed_values observed option channels values)
        ≡ some (reported observed option channel)
  unfolding observed_values contains
  observed_values_lem observed option [] values channel (inl m) = cc
  observed_values_lem observed option [] values channel (inr found) = found
  observed_values_lem observed option (c ∷ channels) values channel h =
      elim (Bool-cases (c == channel)) [
        | inl same ↦
            observed_values_lem observed option channels
              (insert c (reported observed option c) values) channel
              (inr (
                lookup-insert c channel (reported observed option c) values
                ∙ (if_true (c == channel) _ _ same
                    ∙ ap (λ k. some (reported observed option k)) ((nat_eq_iff c channel).0 same))))
        | inr other ↦
            observed_values_lem observed option channels
              (insert c (reported observed option c) values) channel
              (later c channels values channel other h)
      ]
    where
      later :
          (c : ℕ) (channels : List ℕ) (values : Values) (channel : ℕ)
          → (c == channel) ≡ false
          → (contains (c ∷ channels) channel ≡ true)
            ⊎ (lookup channel values ≡ some (reported observed option channel))
          → (contains channels channel ≡ true)
            ⊎ (lookup channel (insert c (reported observed option c) values)
                ≡ some (reported observed option channel))
      later c channels values channel other (inl m) = inl (ground (arith, m, other))
      later c channels values channel other (inr found) = inr (
          lookup-insert c channel (reported observed option c) values
          ∙ (if_false (c == channel) _ _ other ∙ found))
