-- ===== src/Quote/Tests.antt =====
-- A quote over two registers.
use go_attestation.Base.{
  ◌==◌, if◌then◌else◌, ◌⊎◌, ℕ, ◌+◌, ◌%◌, ◌≡◌, refl, List, [], ◌∷◌, Bool, true, false, replicate,
  bytes_equal, none, some, ◌↔◌,
}
use go_attestation.Hash.{Hashes, IsHashes}
use go_attestation.Runtime.Endian.{Bytes}
use go_attestation.Runtime.Result.{ok}
use go_attestation.EventLog.{RawEvent, Event}
use go_attestation.EventLog.Replay.{
  Pcr, replay_pcr, replay_loop, replay_check, extend, extend_with, startup_locality,
}
use go_attestation.Quote.Logs.{Forged, replay_pcr-validate20_binding}
use go_attestation.Quote.{
  Quote, version20, AkPublic, rsa_key, Tpm, tag_attest_quote, mark, selected, validate20,
  verify_quote, verify_quotes, verify_all,
}
use go_attestation.Quote.Accepts.{Accepts, validate20-Accepts}
use go_attestation.Quote.Binding.{SameValues, Collision, validate20_binding}

abbrev total : Bytes → ℕ
total [] = 0
total (b ∷ bs) = b + total bs

abbrev spread : ℕ → Bytes → Bytes
spread size b = replicate size (total b % 256)

abbrev pub hash_functions : Hashes
hash_functions = record { sha1 = spread 20; sha256 = spread 32; other = λ h. none }

-- A signature is the signed digest itself; each attestation is the same one.
abbrev pub library : Tpm ℕ
library = record {
  verify_pkcs1v15 = λ k h digest signature. bytes_equal digest signature;
  decode_signature = λ b. some (some b);
  decode_attestation = λ b. some (record {
    tag = tag_attest_quote;
    extra_data = 1 ∷ [];
    selection_hash = 11;
    selection_pcrs = 0 ∷ 7 ∷ [];
    pcr_digest = replicate 32 7;
  });
  unpack_attestation = λ b. none;
  pack_composite = λ size mask values. none;
  sort_pcrs = λ ps. ps;
}

abbrev pub key : AkPublic ℕ
key = record { public = rsa_key 1; hash = 5 }

abbrev pub one_quote : Quote
one_quote = record { version = version20; quote = 9 ∷ []; signature = replicate 32 9 }

abbrev pub pcr : ℕ → ℕ → Bool → Pcr
pcr index value mark = record {
  index = index;
  digest = value ∷ [];
  digest_alg = 5;
  quote_verified = mark;
}

abbrev given : List Pcr
given = pcr 0 3 false ∷ pcr 7 4 false ∷ []

abbrev verified : List Pcr
verified = pcr 0 3 true ∷ pcr 7 4 true ∷ []

validate20-Accepts_example :
    (validate20 hash_functions library key one_quote given (1 ∷ []) ≡ ok verified)
    ↔ Accepts hash_functions library key one_quote given (1 ∷ []) verified
validate20-Accepts_example =
    validate20-Accepts hash_functions library key one_quote given verified (1 ∷ [])

given-verify_all :
    verify_all hash_functions library key (one_quote ∷ []) given (1 ∷ []) ≡ ok verified
unfolding verify_all verify_quotes verify_quote validate20 selected mark
given-verify_all = refl

-- A register that is given twice: the value that is given first is in no hash, and is marked.
given_twice-verify_all :
    verify_all hash_functions library key (one_quote ∷ []) (pcr 0 99 false ∷ given) (1 ∷ [])
    ≡ ok (pcr 0 99 true ∷ verified)
unfolding verify_all verify_quotes verify_quote validate20 selected mark
given_twice-verify_all = refl

given-validate20 : validate20 hash_functions library key one_quote given (1 ∷ []) ≡ ok verified
unfolding validate20 selected mark
given-validate20 = refl

given_twice-validate20 :
    validate20 hash_functions library key one_quote (pcr 0 99 false ∷ given) (1 ∷ [])
    ≡ ok (pcr 0 99 true ∷ verified)
unfolding validate20 selected mark
given_twice-validate20 = refl

validate20_binding_example :
    SameValues hash_functions library key one_quote given (pcr 0 99 false ∷ given)
    ⊎ Collision hash_functions library key
validate20_binding_example =
    validate20_binding hash_functions library key one_quote given (pcr 0 99 false ∷ given) verified
      (pcr 0 99 true ∷ verified) (1 ∷ []) (1 ∷ []) (λ a. 1) (refl, (refl, tt))
      (refl, (refl, (refl, tt))) given-validate20 given_twice-validate20

-- A quote of one register of the bank of SHA-1.
abbrev pub sha1_library : Tpm ℕ
sha1_library = record library {
  decode_attestation = λ b. some (record {
    tag = tag_attest_quote;
    extra_data = 1 ∷ [];
    selection_hash = 4;
    selection_pcrs = 7 ∷ [];
    pcr_digest = replicate 32 16;
  });
}

abbrev pub seven : Pcr
seven = record { index = 7; digest = replicate 20 180; digest_alg = 3; quote_verified = false }

abbrev pub measurement : ℕ → ℕ → RawEvent
measurement n index = record {
  sequence = n;
  index = index;
  typ = 1;
  payload = 5 ∷ n ∷ [];
  digests = record { hash = 3; bytes = replicate 20 9 } ∷ [];
}

abbrev pub put_out : ℕ → Event
put_out n = record {
  sequence = n;
  index = 7;
  typ = 1;
  payload = 5 ∷ n ∷ [];
  digest = replicate 20 9;
}

pub hash_functions-IsHashes : IsHashes hash_functions
hash_functions-IsHashes = record {
  length-sha1 = λ b. refl;
  length-sha256 = λ b. refl;
  length-other = λ h size sum e. absurd (cc e);
  no_hash = refl;
}

abbrev other_bank : Pcr
other_bank = record { index = 7; digest = replicate 32 1; digest_alg = 5; quote_verified = true }

abbrev sizes : ℕ → ℕ
sizes alg = if alg == 3 then 20 else 32

seven-validate20 :
    validate20 hash_functions sha1_library key one_quote (seven ∷ []) (1 ∷ [])
    ≡ ok (record seven { quote_verified = true } ∷ [])
unfolding validate20 selected mark
seven-validate20 = refl

both-validate20 :
    validate20 hash_functions sha1_library key one_quote (other_bank ∷ seven ∷ []) (1 ∷ [])
    ≡ ok (other_bank ∷ record seven { quote_verified = true } ∷ [])
unfolding validate20 selected mark
both-validate20 = refl

first-replay_pcr :
    replay_pcr hash_functions seven (measurement 1 7 ∷ []) ≡ ok (some (put_out 1 ∷ []))
unfolding replay_pcr replay_loop replay_check extend extend_with startup_locality
first-replay_pcr = refl

second-replay_pcr :
    replay_pcr hash_functions seven (measurement 1 8 ∷ measurement 2 7 ∷ [])
    ≡ ok (some (put_out 2 ∷ []))
unfolding replay_pcr replay_loop replay_check extend extend_with startup_locality
second-replay_pcr = refl

replay_pcr-validate20_binding_example :
    (◌≡◌ {A = List Bytes} (replicate 20 9 ∷ []) (replicate 20 9 ∷ []))
    ⊎ Forged hash_functions hash_functions-IsHashes sha1_library key 3
replay_pcr-validate20_binding_example =
    replay_pcr-validate20_binding hash_functions hash_functions-IsHashes sha1_library key one_quote
      (seven ∷ []) (other_bank ∷ seven ∷ []) (record seven { quote_verified = true } ∷ [])
      (other_bank ∷ record seven { quote_verified = true } ∷ []) (1 ∷ []) (1 ∷ []) sizes
      (record {
        tag = tag_attest_quote;
        extra_data = 1 ∷ [];
        selection_hash = 4;
        selection_pcrs = 7 ∷ [];
        pcr_digest = replicate 32 16;
      })
      seven seven (measurement 1 7 ∷ []) (measurement 1 8 ∷ measurement 2 7 ∷ []) (put_out 1)
      (put_out 2) [] [] (20, spread 20) (refl, tt) (refl, (refl, tt)) seven-validate20
      both-validate20 refl (record { bank = refl; index = refl; value = refl })
      (record { bank = refl; index = refl; value = refl }) refl refl first-replay_pcr
      second-replay_pcr
