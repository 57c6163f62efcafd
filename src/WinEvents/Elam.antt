-- ===== src/WinEvents/Elam.antt =====
-- attest/win_events.go: `readELAMAggregation`.
use go_attestation.Base.{
  ℕ, zero, suc, List, [], true, false, not, ◌==◌, ltb, is_empty, Option, none, some, if◌then◌else◌,
}
use go_attestation.Runtime.Endian.{Bytes}
use go_attestation.Runtime.Result.{Result, ok, err, panic, stuck}
use go_attestation.WinEvents.{
  WinEvents, MicrosoftEventHeader, WinError, sub_event_too_large, duplicate_field,
  unknown_sub_event, no_driver_name,
}
use go_attestation.WinEvents.Sipa.{
  elam_aggregation, elam_keyname, elam_measured, elam_policy, elam_configuration,
}
use go_attestation.WinEvents.Stream.{
  Reader, ◌>>=◌, ◌>>◌, pure, fail, out_of_fuel, check, modify, left, adjust, limited, read_full,
  read_header,
}
use go_attestation.WinEvents.Values.{parse_utf16}
use go_attestation.WinEvents.Modules.{is_none, insert}

-- The variables of the loop.
pub record ElamFields : Type 0 where
  pub driver_name : List ℕ
  pub measured : Option Bytes
  pub policy : Option Bytes
  pub config : Option Bytes

abbrev pub no_elam : ElamFields
no_elam = record { driver_name = []; measured = none; policy = none; config = none }

unfoldable pub read_elam_field : MicrosoftEventHeader → ElamFields → Reader ElamFields
read_elam_field h v =
    if h.typ == elam_keyname
    then (do
      check (is_empty v.driver_name) duplicate_field
      a ← parse_utf16 h
      pure (record v { driver_name = a }))
    else if h.typ == elam_measured
    then (do
      check (is_none v.measured) duplicate_field
      a ← read_full h.size
      pure (record v { measured = some a }))
    else if h.typ == elam_policy
    then (do
      check (is_none v.policy) duplicate_field
      a ← read_full h.size
      pure (record v { policy = some a }))
    else if h.typ == elam_configuration
    then (do
      check (is_none v.config) duplicate_field
      a ← read_full h.size
      pure (record v { config = some a }))
    else fail unknown_sub_event

abbrev pub put_driver : ElamFields → WinEvents → WinEvents
put_driver v w = record w {
  elam =
      insert v.driver_name (record { measured = v.measured; config = v.config; policy = v.policy })
        w.elam;
}

-- What comes after the loop.
unfoldable pub add_elam : ElamFields → Reader (Unit {0})
add_elam v = do check (not (is_empty v.driver_name)) no_driver_name; modify (put_driver v)

-- A call whose error is not looked at.
abbrev pub ignore_error : Result WinError (Unit {0}) → Result WinError (Unit {0})
ignore_error (ok u) = ok u
ignore_error (err e) = ok tt
ignore_error panic = panic
ignore_error stuck = stuck

-- The loop and what follows it. A round takes the bytes of a header, and so does each aggregation
-- inside another, so that the bytes that are left and one more round are fuel enough.
unfoldable pub read_elam_fields : ℕ → ElamFields → Reader (Unit {0})
unfolding read_elam_field add_elam read_header
read_elam_fields zero v = out_of_fuel
read_elam_fields (suc fuel) v = left >>= λ n. elim (n == 0) [
  | true ↦ add_elam v
  | false ↦ do
    h ← read_header
    n ← left
    check (not (ltb n h.size)) sub_event_too_large
    elim (h.typ == elam_aggregation) [
      | true ↦ do
        adjust ignore_error (limited h.size (read_elam_fields fuel no_elam))
        n ← left
        elim (n == 0) [ true ↦ pure tt | false ↦ read_elam_fields fuel v ]
      | false ↦ read_elam_field h v >>= read_elam_fields fuel
    ]
]

unfoldable pub read_elam_aggregation : ℕ → MicrosoftEventHeader → Reader (Unit {0})
unfolding read_elam_fields
read_elam_aggregation fuel h = limited h.size (read_elam_fields fuel no_elam)
