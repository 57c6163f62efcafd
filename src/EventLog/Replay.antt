-- ===== src/EventLog/Replay.antt =====
-- attest/eventlog.go: `extend`, `replayPCR` and `replayEvents`; attest/attest.go: `PCR`.
pub mod Chain
pub mod Expected
pub mod Register
pub mod Binding
pub mod Outcome
pub mod Items
pub mod Ascending
pub mod Winner
pub mod Order
pub mod Vouched
use go_attestation.Base.{
  ℕ, ◌+◌, ◌-◌, List, [], ◌∷◌, ◌++◌, length, replicate, Bool, true, false, not, ◌&&◌, ◌==◌,
  if◌then◌else◌, bytes_equal, Option, none, some, codes, has_prefix, get_or, is_empty,
}
use go_attestation.Hash.{Hashes, hash_new}
use go_attestation.Runtime.Endian.{Bytes}
use go_attestation.Runtime.Result.{Result, ok, err, panic, stuck, ◌>>=◌}
use go_attestation.EventLog.{Digest, RawEvent, Event, event_type_no_action}

-- `digest_alg` is a `crypto.Hash`.
pub record Pcr : Type 0 where
  pub index : ℕ
  pub digest : Bytes
  pub digest_alg : ℕ
  pub quote_verified : Bool

-- What of the language and its library the replay rests on: the hash functions, the order in which
-- `range` goes over the keys of a map, and `sort.Slice` by the sequence number, which may put events
-- with one number in any order.
pub record Env : Type 0 where
  pub hashes : Hashes
  pub map_order : List ℕ → List ℕ
  pub sort_events : List Event → List Event

pub data ExtendError : Type 0 where
  digest_length : ExtendError
  no_digest : ExtendError

pub record ReplayError : Type 0 where
  pub events : List Event
  pub invalid_pcrs : List ℕ

-- The value of a register that nothing was measured into: zeros, and the locality at the end.
abbrev pub initial_value : ℕ → ℕ → Bytes
initial_value size locality = replicate (size - 1) 0 ++ (locality ∷ [])

abbrev pub current_value : ℕ → Bytes → ℕ → Bytes
current_value size [] locality = initial_value size locality
current_value size (b ∷ replay) locality = b ∷ replay

module _ (pcr : Pcr) where
  -- The locality that a StartupLocality event of PCR 0 reports; any other event leaves it.
  unfoldable pub startup_locality : RawEvent → ℕ → ℕ
  startup_locality e locality =
      if pcr.index == 0
        && (length e.payload == 17 && has_prefix (codes "StartupLocality") e.payload)
      then get_or e.payload 16 0
      else locality

  abbrev pub replayed : RawEvent → Bytes → Event
  replayed e digest = record {
    sequence = e.sequence;
    index = pcr.index;
    typ = e.typ;
    payload = e.payload;
    digest = digest;
  }

  -- The register's digest is not what the events give.
  unfoldable pub replay_check : List Event → Bytes → Option (List Event)
  replay_check out final =
      if not (is_empty out) && not (bytes_equal final pcr.digest) then none else some out

module _ (hs : Hashes) (pcr : Pcr) where
  unfoldable pub extend_with : Bytes → ℕ → Digest → Result ExtendError (Bytes × Bytes)
  extend_with replay locality d =
      if length d.bytes == length pcr.digest
      then (elim (hash_new hs pcr.digest_alg) [
        | none ↦ panic
        | some (size, sum) ↦ ok (sum (current_value size replay locality ++ d.bytes), d.bytes)
      ])
      else err digest_length

  -- `extend`, over the digests of the event.
  unfoldable pub extend : Bytes → ℕ → List Digest → Result ExtendError (Bytes × Bytes)
  unfolding extend_with
  extend replay locality [] = err no_digest
  extend replay locality (d ∷ ds) =
      let later = extend replay locality ds in
      if d.hash == pcr.digest_alg then extend_with replay locality d else later

  -- The loop of `replayPCR`: the events that are put out, and the last value.
  unfoldable pub replay_loop : List RawEvent → Bytes → ℕ → Result ExtendError (List Event × Bytes)
  unfolding extend startup_locality
  replay_loop [] replay locality = ok ([], replay)
  replay_loop (e ∷ es) replay locality = elim (e.index == pcr.index) [
    | false ↦ replay_loop es replay locality
    | true ↦ elim (e.typ == event_type_no_action) [
      | true ↦ replay_loop es replay (startup_locality pcr e locality)
      | false ↦ extend replay locality e.digests >>= λ (value, digest).
          replay_loop es value locality >>= λ (out, final). ok (replayed pcr e digest ∷ out, final)
    ]
  ]

  -- `replayPCR`; `none` is `nil, false`. A panic of the loop is kept.
  unfoldable pub replay_pcr : List RawEvent → Result ReplayError (Option (List Event))
  unfolding replay_loop replay_check
  replay_pcr es = elim (replay_loop es [] 0) [
    | ok (out, final) ↦ ok (replay_check pcr out final)
    | err x ↦ ok none
    | panic ↦ panic
    | stuck ↦ stuck
  ]

-- One entry of `allPCRReplays` for each register that was given, in order.
abbrev pub Replays : Type 0
Replays = List (ℕ × Option (List Event))

unfoldable pub replay_all : Hashes → List RawEvent → List Pcr → Result ReplayError Replays
unfolding replay_pcr
replay_all hs es [] = ok []
replay_all hs es (p ∷ ps) = do
  r ← replay_pcr hs p es
  rest ← replay_all hs es ps
  ok ((p.index, r) ∷ rest)

-- The keys of the map, each once.
abbrev pub has_key : ℕ → List ℕ → Bool
has_key k [] = false
has_key k (j ∷ js) = elim (j == k) [ true ↦ true | false ↦ has_key k js ]

abbrev pub keys : Replays → List ℕ
keys [] = []
keys ((k, r) ∷ rest) = let others = keys rest in if has_key k others then others else k ∷ others

-- The first successful replay under a key.
abbrev pub first_success : ℕ → Replays → Option (List Event)
first_success k [] = none
first_success k ((j, none) ∷ rest) = first_success k rest
first_success k ((j, some es) ∷ rest) =
    let later = first_success k rest in if j == k then some es else later

-- The loop `pcrLoop`: the verified events, and the keys without a success.
unfoldable pub collect : Replays → List ℕ → List Event × List ℕ
collect rs [] = ([], [])
collect rs (k ∷ ks) = elim (first_success k rs) [
  | some es ↦ (es ++ (collect rs ks).0, (collect rs ks).1)
  | none ↦ ((collect rs ks).0, k ∷ (collect rs ks).1)
]

abbrev pub unverified : List RawEvent → List Event
unverified [] = []
unverified (e ∷ es) =
    record { sequence = e.sequence; index = e.index; typ = e.typ; payload = e.payload; digest = [] }
    ∷ unverified es

unfoldable pub conclude :
    Env → List RawEvent → List Event × List ℕ → Result ReplayError (List Event)
conclude env es (verified, []) = ok (env.sort_events verified)
conclude env es (verified, k ∷ ks) = err (record { events = unverified es; invalid_pcrs = k ∷ ks })

unfoldable pub replay_events : Env → List RawEvent → List Pcr → Result ReplayError (List Event)
unfolding replay_all collect conclude
replay_events env es pcrs = do
  rs ← replay_all env.hashes es pcrs
  conclude env es (collect rs (env.map_order (keys rs)))
