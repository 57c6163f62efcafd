-- ===== src/WinEvents/Stream.antt =====
-- attest/win_events.go: readers that change the `WinEvents` that they belong to. A reader that fails
-- leaves what it changed and what it read, since the caller may go on.
use go_attestation.Base.{
  ℕ, ◌-◌, length, take, drop, Bool, true, false, Option, none, some, ltb, leb, if◌then◌else◌,
}
use go_attestation.Runtime.Endian.{Bytes, from_le}
use go_attestation.Runtime.Reader.{short_read, field}
use go_attestation.Runtime.Result.{Result, ok, err, panic, stuck}
use go_attestation.WinEvents.{WinEvents, WinError, MicrosoftEventHeader, reading}

-- `rest` is what the `bytes.Reader` has left, and `limit` is the `N` of the `io.LimitedReader`
-- around it, if there is one.
pub record Stream : Type 0 where
  pub win : WinEvents
  pub rest : Bytes
  pub limit : Option ℕ

abbrev pub Reader : Type 0 → Type 0
Reader A = Stream → Result WinError A × Stream

abbrev pub continue :
    {A B : Type 0} → Result WinError A × Stream → (A → Reader B) → Result WinError B × Stream
continue (ok a, s) f = f a s
continue (err e, s) f = (err e, s)
continue (panic, s) f = (panic, s)
continue (stuck, s) f = (stuck, s)

infixl 5 ◌>>=◌ ◌>>◌
abbrev pub ◌>>=◌ : {A B : Type 0} → Reader A → (A → Reader B) → Reader B
◌>>=◌ m f s = continue (m s) f

abbrev pub ◌>>◌ : {B : Type 0} → Reader (Unit {0}) → Reader B → Reader B
m >> k = m >>= λ _. k

abbrev pub pure : {A : Type 0} → A → Reader A
pure a s = (ok a, s)

abbrev pub fail : {A : Type 0} → WinError → Reader A
fail e s = (err e, s)

-- What a caller makes of the outcome.
abbrev pub adjust : {A B : Type 0} → (Result WinError A → Result WinError B) → Reader A → Reader B
adjust f m s = let (r, t) = m s in (f r, t)

-- A loop of the model without fuel.
abbrev pub out_of_fuel : {A : Type 0} → Reader A
out_of_fuel s = (stuck, s)

-- `if !b { return e }`
abbrev pub check : Bool → WinError → Reader (Unit {0})
check true e = pure tt
check false e = fail e

abbrev pub modify : (WinEvents → WinEvents) → Reader (Unit {0})
modify f s = (ok tt, record s { win = f s.win })

abbrev pub get_win : Reader WinEvents
get_win s = (ok s.win, s)

-- How many bytes a `Read` can get.
abbrev pub available : Bytes → Option ℕ → ℕ
available b none = length b
available b (some n) = if ltb n (length b) then n else length b

abbrev pub lower_limit : ℕ → Option ℕ → Option ℕ
lower_limit k none = none
lower_limit k (some n) = some (n - k)

abbrev pub advance : ℕ → Stream → Stream
advance k s = record s { rest = drop k s.rest; limit = lower_limit k s.limit }

-- `io.ReadFull` of `n` bytes: what is there is taken, also if it is too little.
unfoldable pub read_full : ℕ → Reader Bytes
read_full n s =
    let there = available s.rest s.limit in
    if leb n there
    then (ok (take n s.rest), advance n s)
    else (err (reading (short_read (take there s.rest))), advance there s)

-- `binary.Read` of an unsigned integer of `n` bytes.
unfoldable pub read_uint : ℕ → Reader ℕ
unfolding read_full
read_uint n = read_full n >>= λ b. pure (from_le b)

-- `binary.Read` of a `microsoftEventHeader`.
unfoldable pub read_header : Reader MicrosoftEventHeader
unfolding read_full
read_header =
    read_full 8 >>= λ b. pure (record { typ = from_le (field 0 4 b); size = from_le (field 4 4 b) })

-- The `io.LimitedReader` of a sub-event: the reader below sees what was read through it.
abbrev pub outer_limit : Option ℕ → ℕ → Option ℕ → Option ℕ
outer_limit none size inner = none
outer_limit (some n) size none = some n
outer_limit (some n) size (some left) = some (n - (size - left))

abbrev pub limited : {A : Type 0} → ℕ → Reader A → Reader A
limited size m s =
    let (r, t) = m (record s { limit = some size }) in
    (r, record t { limit = outer_limit s.limit size t.limit })

-- `r.N`
abbrev pub left_of : Option ℕ → ℕ
left_of none = 0
left_of (some n) = n

abbrev pub left : Reader ℕ
left s = (ok (left_of s.limit), s)

-- `r.Len()`
abbrev pub len : Reader ℕ
len s = (ok (length s.rest), s)
