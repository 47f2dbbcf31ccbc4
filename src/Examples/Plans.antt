-- ===== src/Examples/Plans.antt =====
-- The theorems on reconcile.py at a concrete desk and at concrete reports.
use oscmix_desk.Common.{ℕ, ◌≡◌, refl, inl, inr, none, some, true, false, List, [], ◌∷◌, In}
use oscmix_desk.Common.Int.{ℤ, pos, negsuc}
use oscmix_desk.Common.Dict.{lookup}
use oscmix_desk.Common.Sets.{List_eq}
use oscmix_desk.Paths.{word, num, OscPath, Segment_eq}
use oscmix_desk.Registers.{register_at, verify_class}
use oscmix_desk.Osc.Message.{Value, int, float}
use oscmix_desk.Model.{Route}
use oscmix_desk.Numeric.{integer}
use oscmix_desk.Model.Config.{Config, keep}
use oscmix_desk.Reconcile.Entries.{Entry, Phase, mix, link}
use oscmix_desk.Reconcile.Compare.{Seen, plan, matches}
use oscmix_desk.Reconcile.Compare.Complete.{Settles, plan-Settles, plan-confirmed}
use oscmix_desk.Examples.Numbers.{ℤ_floats}

abbrev voice_route : Route ℤ
voice_route = record {
  name = b'v' ∷ [];
  output = 1 ∷ 2 ∷ [];
  playback = [];
  level = negsuc 11;
  volume = none;
  stereo = true;
  input = 3 ∷ [];
  pan = pos 0;
  mirror_of = [];
  base = false;
}

abbrev pub config : Config ℤ
config = record {
  device_name = "Small";
  usb_id = "";
  serial = "";
  osc_port = 7222;
  osc_recv_port = 8222;
  routes = voice_route ∷ [];
  channels = [];
  globals = [];
  policies = [];
  loaded = none;
  overrides = record { device_name = none; osc_port = none };
  base = keep;
  enforce_watch = false;
  peak_safe = false;
}

abbrev pub entry : Phase → OscPath → List ℕ → List (Value ℤ) → Entry ℤ
entry phase path tags args = record {
  path = path;
  tags = tags;
  args = args;
  phase = phase;
  base = false;
  compared = true;
}

abbrev pub matrix_path : OscPath
matrix_path = word "mix" ∷ num 1 ∷ word "input" ∷ num 3 ∷ []

abbrev pub link_path : OscPath
link_path = word "output" ∷ num 1 ∷ word "stereo" ∷ []

abbrev pub wanted : List (Entry ℤ)
wanted =
    entry link (word "input" ∷ num 3 ∷ word "stereo" ∷ []) (b'i' ∷ []) (int (pos 0) ∷ [])
    ∷ entry link link_path (b'i' ∷ []) (int (pos 1) ∷ [])
    ∷ entry mix matrix_path (b'f' ∷ b'i' ∷ []) (float (negsuc 11) ∷ int (pos 0) ∷ [])
    ∷ []

-- The output pair is linked already; the matrix has another level.
abbrev seen : Seen ℤ
seen = (link_path, int (pos 1) ∷ []) ∷ (matrix_path, float (negsuc 19) ∷ int (pos 0) ∷ []) ∷ []

plan-Settles_example :
    Settles
      (plan wanted (some seen) none none)
      (entry link link_path (b'i' ∷ []) (int (pos 1) ∷ []))
plan-Settles_example =
    plan-Settles wanted (some seen) none none (entry link link_path (b'i' ∷ []) (int (pos 1) ∷ []))
      (inr (inl refl))

link_confirmed : In link_path (plan wanted (some seen) none none).confirmed
unfolding plan verify_class lookup matches register_at integer
link_confirmed = inl refl

plan-confirmed_example :
    (e : Entry ℤ) × (reports : Seen ℤ) × (got : List (Value ℤ)) × In e wanted
    × (e.path ≡ link_path)
    × (some seen ≡ some reports)
    × (lookup e.path reports ≡ some got)
    × (matches e.tags e.args got none (register_at none e.path) ≡ true)
plan-confirmed_example = plan-confirmed wanted (some seen) none none link_path link_confirmed
