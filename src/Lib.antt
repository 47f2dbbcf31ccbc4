-- ===== src/Lib.antt =====
-- oscmix-desk: a desk for RME interfaces, declared in a file and applied over OSC through the
-- oscmix backend. This library models the part of src/oscmix_desk/ that decides what a desk asks
-- of the device, what has to be written, what the reports of the device say of it, and the OSC
-- codec that carries both.
--
-- How the program goes: the parser builds a `Config` of routes and settings (model.py), with the
-- routes that mirrors and a base add (mirrors.py, base.py). `reconcile.desired` turns it into
-- register entries in the order of an apply, after the rules on balance, AutoSet and playback mute
-- (autogain.py, playback.py). `reconcile.plan` compares the entries with the device's reports,
-- by the contracts of the registers (registers.py, numeric.py), and gives the writes;
-- `application_plan` selects those that an operation may send. osc.py puts them on the wire and
-- reads the reports. A switch to a desk (profiles.py) sends the plan, between quieted outputs when
-- the desk asks for it (peaksafe.py), reads the device back in one window (verify.py, on the sets
-- of observation.py) and reports an `Outcome` (outcome.py). While a session runs, the watcher
-- (watch.py) asks for a reconcile when a report contradicts the desk, and a reload reads the files
-- again (reload.py). limits.py counts the DSP functions that a plan would leave on.
--
-- Which file models which part:
--   Osc.Bytes, Osc.Message, Osc.Bundle   src/oscmix_desk/osc.py, all of it
--   Model, Model.Config                  src/oscmix_desk/model.py
--   Mirrors                              src/oscmix_desk/mirrors.py
--   Base, Base.Straight, Base.Merged     src/oscmix_desk/base.py
--   Registers, Numeric                   src/oscmix_desk/registers.py, numeric.py
--   Playback, Autogain                   src/oscmix_desk/playback.py, autogain.py
--   Reconcile.Entries, Reconcile.Settings, Reconcile.Desired
--                                        src/oscmix_desk/reconcile.py, desired and what it calls
--   Reconcile.Compare                    src/oscmix_desk/reconcile.py, matches and plan
--   Reconcile.Apply                      src/oscmix_desk/reconcile.py, application_plan and what it
--                                        calls
--   Observation, Verify, Verify.Repair   src/oscmix_desk/observation.py, verify.py
--   Outcome, Activation                  src/oscmix_desk/outcome.py, profiles.py (`_activate`)
--   Watch, Watch.Admission               src/oscmix_desk/watch.py
--   PeakSafe                             src/oscmix_desk/peaksafe.py
--   Reload, Reload.Stamps                src/oscmix_desk/reload.py, profiles.py (the desk in effect)
--   Limits                               src/oscmix_desk/limits.py
--   Paths                                the paths that these modules format and take apart
-- The functions keep their names; a loop of a function is a definition of its own. The modules
-- below these hold the proofs. Common has the shared types and lemmas, Examples the theorems at
-- concrete inputs.
--
-- How Python is read: an exception is a value of `Result`, with one constructor for each `raise` of
-- osc.py and for each kind of refusal elsewhere, without its text. A test of a value's Python type
-- is the model's type, where the type leaves only one answer. A dictionary is an association list
-- in insertion order. A channel is a natural number, since the parser admits none below 1. A
-- register path is the list of its segments, and a template a list of words and placeholders. The
-- device's table is an argument in place of `device_for_name`.
--
-- Parameters: Python's floats are not modelled. `Floats` has the operations that the code uses,
-- with symmetry and transitivity of equality as the only laws. `FloatCodec` has the conversions and
-- the float packing of `struct` at the wire, with what the code relies on as its fields.
--
-- What the device, the backend and the system answer is an argument, round by round: the reports of
-- a window, the failures of a switch and how far each call got, the stop requests and clock readings
-- of the watcher, what a check of the desk's files finds. A clock reading is a number of
-- milliseconds; only the bound on repeats relies on a clock that does not run backwards.
--
-- Fuel: `iter_osc_messages` loops over a list of pending packets. Its model runs on the number of
-- bytes of the datagram and two, and the loop over a bundle on the bundle's bytes and one. Each
-- round uses up a packet or at least four bytes, so this is enough.
--
-- Not modelled: retention_problem of reconcile.py, the listings of registers.py that only the parser
-- and the dump use, the rendering of numeric.py, the counts and texts that verify.py logs, the
-- loading and saving of profiles, the parser of the configuration files, the status of the playback
-- matrix (playstate.py), the records that processes share (journal.py, seen.py, reads.py), and all
-- input and output: processes, sockets, MIDI, files and locks.
pub mod Activation
pub mod Autogain
pub mod Base
pub mod Common
pub mod Examples
pub mod Floats
pub mod Limits
pub mod Mirrors
pub mod Model
pub mod Numeric
pub mod Observation
pub mod Osc
pub mod Outcome
pub mod Paths
pub mod PeakSafe
pub mod Playback
pub mod Reconcile
pub mod Registers
pub mod Reload
pub mod Verify
pub mod Watch
