-- ===== src/Quote/Tests12.antt =====
-- A quote of a TPM of version 1.2 over two registers.
use go_attestation.Base.{
  ℕ, ◌≡◌, refl, List, [], ◌∷◌, ◌++◌, false, true, All, is_empty, replicate, some, ◌↔◌,
}
use go_attestation.EventLog.Replay.{Pcr}
use go_attestation.Runtime.Result.{ok, err}
use go_attestation.Quote.{
  Quote, version12, Tpm, invalid_index, fixed_quote, composite_of, validate12, validate20,
  verify_quote, verify_quotes, verify_all, selected, mark,
}
use mathlib.Core.List.{Permᴰ, Perm}
use mathlib.Core.List.Permᴰ
use go_attestation.Quote.Coverage.{erase}
use go_attestation.Quote.Marks.{Some}
use go_attestation.Quote.Covered.{Covered, verify_all-Covered}
use go_attestation.Quote.Accepts12.{Accepts12, validate12-Accepts12}
use go_attestation.Quote.Tests.{hash_functions, library, key, pcr, one_quote}

abbrev swapped : List Pcr → List Pcr
swapped (a ∷ b ∷ []) = b ∷ a ∷ []
swapped ps = ps

-- A quote of the registers 0 and 9; two registers are given in the other order.
abbrev library12 : Tpm ℕ
library12 = record library {
  unpack_attestation =
      λ b. some (record { fixed = fixed_quote; digest = replicate 20 13; nonce = replicate 20 1 });
  pack_composite = λ size mask values. some (size ∷ (mask ++ values));
  sort_pcrs = λ ps. swapped ps;
}

abbrev quote12 : Quote
quote12 = record { version = version12; quote = 9 ∷ []; signature = replicate 20 9 }

abbrev given12 : List Pcr
given12 = pcr 9 4 false ∷ pcr 0 3 false ∷ []

abbrev marked12 : List Pcr
marked12 = pcr 0 3 true ∷ pcr 9 4 true ∷ []

given12-validate12 : validate12 hash_functions library12 key quote12 given12 (1 ∷ []) ≡ ok marked12
unfolding validate12 composite_of
given12-validate12 = refl

high-validate12 :
    validate12 hash_functions library12 key quote12 (pcr 24 4 false ∷ []) (1 ∷ [])
    ≡ err invalid_index
unfolding validate12 composite_of
high-validate12 = refl

-- The composite does not say where one value ends: other values of other lengths give the same bytes.
split_elsewhere :
    composite_of
      (record (pcr 0 3 false) { digest = 3 ∷ 4 ∷ [] } ∷ record (pcr 9 4 false) { digest = [] } ∷ [])
      (replicate 3 0)
    ≡ composite_of (pcr 0 3 false ∷ pcr 9 4 false ∷ []) (replicate 3 0)
unfolding composite_of
split_elsewhere = refl

validate12-Accepts12_example :
    (validate12 hash_functions library12 key quote12 given12 (1 ∷ []) ≡ ok marked12)
    ↔ Accepts12 hash_functions library12 key quote12 given12 (1 ∷ []) marked12
validate12-Accepts12_example =
    validate12-Accepts12 hash_functions library12 key quote12 given12 marked12 (1 ∷ [])

swapped-perm : (ps : List Pcr) → Permᴰ (swapped ps) ps
swapped-perm [] = Permᴰ.nil
swapped-perm (a ∷ []) = Permᴰ.refl (a ∷ [])
swapped-perm (a ∷ b ∷ []) = Permᴰ.swap refl refl
swapped-perm (a ∷ b ∷ c ∷ l) = Permᴰ.refl (a ∷ b ∷ c ∷ l)

-- The registers 0 and 7, quoted in both versions.
abbrev both_library : Tpm ℕ
both_library = record library12 {
  unpack_attestation =
      λ b. some (record { fixed = fixed_quote; digest = replicate 20 139; nonce = replicate 20 1 });
}

abbrev given_both : List Pcr
given_both = pcr 7 4 false ∷ pcr 0 3 false ∷ []

abbrev marked_both : List Pcr
marked_both = pcr 0 3 true ∷ pcr 7 4 true ∷ []

given_both-verify_all :
    verify_all hash_functions both_library key (quote12 ∷ one_quote ∷ []) given_both (1 ∷ [])
    ≡ ok marked_both
unfolding verify_all verify_quotes verify_quote validate12 validate20 composite_of selected mark
given_both-verify_all = refl

verify_all-Covered_example :
    (is_empty (quote12 ∷ one_quote ∷ []) ≡ false)
    × (is_empty {A = ℕ} (1 ∷ []) ≡ false)
    × Perm (erase marked_both) (erase given_both)
    × All
        (λ p.
          (p.quote_verified ≡ true)
          × Some
              (Covered hash_functions both_library key (1 ∷ []) given_both p)
              (quote12 ∷ one_quote ∷ []))
        marked_both
verify_all-Covered_example =
    verify_all-Covered hash_functions both_library key (1 ∷ []) given_both swapped-perm
      (quote12 ∷ one_quote ∷ []) marked_both (refl, (refl, tt)) given_both-verify_all
