-- ===== src/Challenge/Tests.antt =====
-- A challenge with small ciphers.
use go_attestation.Base.{
  ℕ, ◌+◌, ◌%◌, ◌<◌, ◌≤◌, ◌≡◌, refl, [], ◌∷◌, ◌++◌, length, replicate, none, some, arith,
}
use go_attestation.Hash.{Hashes}
use go_attestation.Runtime.Endian.{Bytes, to_be}
use go_attestation.Runtime.Reader.{split_at?, read_full}
use go_attestation.Runtime.Result.{ok}
use go_attestation.Challenge.{
  Ciphers, make_empty_pcr_info, make_activation_blob, make_ek_blob, pad_length, pad, crypt_blocks,
  generate_challenge12,
}
use go_attestation.Challenge.Padding.{unpad, pad-unpad}

abbrev added : Bytes → ℕ
added [] = 0
added (b ∷ bs) = b + added bs

abbrev digests : Hashes
digests = record {
  sha1 = λ b. replicate 20 (added b % 256);
  sha256 = λ b. replicate 32 (added b % 256);
  other = λ h. none;
}

-- The key is put in front of what is encrypted, and the initialisation vector's size.
abbrev marking : Ciphers ℕ
marking = record {
  encrypt_oaep = λ rand key m label. some (key ∷ m);
  new_cbc = λ key. some (λ iv m. length iv ∷ m);
}

abbrev drawn : Bytes
drawn = replicate 16 3 ++ (replicate 16 4 ++ (5 ∷ []))

abbrev asymmetric : Bytes
asymmetric =
    9
    ∷ (to_be 2 0xc
        ++ (to_be 2 1
            ++ (to_be 4 72
                ++ (to_be 2 0x2b
                    ++ (to_be 4 0xa
                        ++ (to_be 2 1
                            ++ (to_be 2 16
                                ++ (replicate 16 3
                                    ++ (replicate 20 2
                                        ++ (to_be 2 3 ++ (0 ∷ 0 ∷ 0 ∷ 1 ∷ replicate 20 0)))))))))))

abbrev symmetric : Bytes
symmetric = to_be 4 2 ++ (replicate 16 4 ++ (16 ∷ (7 ∷ 8 ∷ replicate 14 14)))

drawn-generate_challenge12 :
    generate_challenge12 digests marking drawn 9 (2 ∷ []) (7 ∷ 8 ∷ []) ≡ ok (asymmetric, symmetric)
unfolding generate_challenge12 make_activation_blob make_ek_blob make_empty_pcr_info pad pad_length
    crypt_blocks read_full split_at?
drawn-generate_challenge12 = refl

pad-unpad_example :
    (length (pad (7 ∷ 8 ∷ []) 16) % 16 ≡ 0)
    × (2 < length (pad (7 ∷ 8 ∷ []) 16))
    × (length (pad (7 ∷ 8 ∷ []) 16) ≤ 18)
    × (unpad (pad (7 ∷ 8 ∷ []) 16) ≡ some (7 ∷ 8 ∷ []))
pad-unpad_example = pad-unpad (7 ∷ 8 ∷ []) 16 (omega arith) (omega arith)
