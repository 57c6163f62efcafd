-- ===== src/Challenge/Opens.antt =====
-- What the TPM and its owner make of a challenge.
use go_attestation.Base.{
  ◌+◌, ◌%◌, ◌^◌, ◌<◌, ◌≡◌, refl, sym, ap, ◌∙◌, subst, ◌++◌, length, length-append, ◌==◌, ==_iff,
  Option, none, some, if◌then◌else◌, arith, inl,
}
use go_attestation.Hash.{Hashes, sha1_size}
use go_attestation.Runtime.Endian.{Bytes, to_be, from_be}
use go_attestation.Runtime.Reader.{read_full}
use go_attestation.Runtime.Reader.Laws.{read_full-parts, read_full-Returns}
use go_attestation.Runtime.Result.{
  ok, Returns, Returns-bind, Returns-or_err, or_err, or_err-eq-ok, >>=-eq-ok, ok-injective,
}
use go_attestation.Challenge.{
  Ciphers, no_randomness, encryption_failed, bad_cipher_key, make_empty_pcr_info,
  make_activation_blob, make_ek_blob, pad, tcpa, crypt_blocks, generate_challenge12,
}
use go_attestation.Challenge.Padding.{unpad, pad-unpad}
use go_attestation.Challenge.Blobs.{
  taking, taking-append, open_ek_blob, open_activation_blob, make_ek_blob_open,
  make_activation_blob_open,
}

abbrev pub and_then : {A B : Type 0} → Option A → (A → Option B) → Option B
and_then none k = none
and_then (some a) k = k a

-- The TPM's decryption with its endorsement key, and the decryption of the blocks.
pub record Decryption : Type 0 where
  pub decrypt_oaep : Bytes → Bytes → Option Bytes
  pub decrypt_cbc : Bytes → Bytes → Bytes → Bytes

-- They undo the encryption for the key `pubkey`.
pub record Inverts {Key : Type 0} (ciphers : Ciphers Key) (pubkey : Key) (d : Decryption)
    : Type 0 where
  pub oaep :
      (rand m label c : Bytes)
      → ciphers.encrypt_oaep rand pubkey m label ≡ some c
      → d.decrypt_oaep c label ≡ some m
  pub cbc :
      (key iv m : Bytes) (cipher : Bytes → Bytes → Bytes)
      → ciphers.new_cbc key ≡ some cipher
      → length m % 16 ≡ 0
      → d.decrypt_cbc key iv (cipher iv m) ≡ m

-- TPM_ActivateIdentity on the first part gives the session key and the digest of the attestation
-- key for which the challenge was made.
pub open_identity : Decryption → Bytes → Option (Bytes × Bytes)
open_identity d asymenc =
    and_then (d.decrypt_oaep asymenc tcpa) λ blob. and_then (open_ek_blob blob) open_activation_blob

-- The second part: the mode CBC, the initialisation vector, the blocks.
pub open_secret : Decryption → Bytes → Bytes → Option Bytes
open_secret d key symenc = taking 4 symenc λ mode r.
    taking 16 r λ iv blocks. if from_be mode == 2 then unpad (d.decrypt_cbc key iv blocks) else none

pub open_challenge : Decryption → Bytes → Bytes → Option (Bytes × Bytes)
unfolding open_identity open_secret
open_challenge d asymenc symenc =
    and_then (open_identity d asymenc)
      λ (key, digest). and_then (open_secret d key symenc) λ secret. some (secret, digest)

length-activation_blob :
    (hs : Hashes) (key akpub : Bytes)
    → length (make_activation_blob hs key akpub) ≡ 10 + (length key + (length (hs.sha1 akpub) + 26))
unfolding make_activation_blob make_empty_pcr_info
length-activation_blob hs key akpub = omega (
  arith,
  length-append key (hs.sha1 akpub ++ make_empty_pcr_info),
  length-append (hs.sha1 akpub) make_empty_pcr_info,
)

crypt_blocks-eq-ok :
    (cbc : Bytes → Bytes → Bytes) (iv src : Bytes) {out : Bytes}
    → crypt_blocks cbc iv src ≡ ok out
    → (length src % 16 ≡ 0) × (out ≡ cbc iv src)
unfolding crypt_blocks
crypt_blocks-eq-ok cbc iv src h = ground arith

crypt_blocks-Returns :
    (cbc : Bytes → Bytes → Bytes) (iv src : Bytes)
    → length src % 16 ≡ 0
    → Returns (crypt_blocks cbc iv src)
unfolding crypt_blocks
crypt_blocks-Returns cbc iv src h = rw ((==_iff (length src % 16) 0).1 h) (inl (_, refl))

module _ {Key : Type 0} (hs : Hashes) (ciphers : Ciphers Key) (rand : Bytes) (pubkey : Key)
    (akpub secret : Bytes) where
  -- The parts of a challenge that was made.
  record Parts (asymenc symenc : Bytes) : Type 0 where
    key : Bytes
    length_key : length key ≡ 16
    iv : Bytes
    length_iv : length iv ≡ 16
    rand2 : Bytes
    asym :
        ciphers.encrypt_oaep rand2 pubkey (make_ek_blob (make_activation_blob hs key akpub)) tcpa
        ≡ some asymenc
    cipher : Bytes → Bytes → Bytes
    created : ciphers.new_cbc key ≡ some cipher
    full : length (pad secret (length iv)) % 16 ≡ 0
    sym_parts : symenc ≡ to_be 4 2 ++ (iv ++ cipher iv (pad secret (length iv)))

  parts :
      (asymenc symenc : Bytes)
      → generate_challenge12 hs ciphers rand pubkey akpub secret ≡ ok (asymenc, symenc)
      → Parts asymenc symenc
  unfolding generate_challenge12
  parts asymenc symenc h =
      let ((key, rand1), q1, h1) = >>=-eq-ok (read_full no_randomness 16 rand) _ h in
      let ((iv, rand2), q2, h2) = >>=-eq-ok (read_full no_randomness 16 rand1) _ h1 in
      let (c, q3, h3) =
        >>=-eq-ok
          (or_err
            (ciphers.encrypt_oaep rand2 pubkey (make_ek_blob (make_activation_blob hs key akpub))
              tcpa)
            encryption_failed)
          _ h2 in
      let (cbc, q4, h4) = >>=-eq-ok (or_err (ciphers.new_cbc key) bad_cipher_key) _ h3 in
      let (blocks, q5, h5) = >>=-eq-ok (crypt_blocks cbc iv (pad secret (length iv))) _ h4 in
      let (full, out) = crypt_blocks-eq-ok cbc iv (pad secret (length iv)) q5 in
      record {
        key = key;
        length_key = (read_full-parts no_randomness 16 rand key rand1 q1).1;
        iv = iv;
        length_iv = (read_full-parts no_randomness 16 rand1 iv rand2 q2).1;
        rand2 = rand2;
        asym = or_err-eq-ok _ _ q3 ∙ ap (λ (p : Bytes × Bytes). some p.0) (ok-injective h5);
        cipher = cbc;
        created = or_err-eq-ok _ _ q4;
        full = full;
        sym_parts =
            sym (ap (λ (p : Bytes × Bytes). p.1) (ok-injective h5))
            ∙ ap (λ b. to_be 4 2 ++ (iv ++ b)) out;
      }

  -- Whoever can decrypt with the endorsement key gets out of a challenge that `generateChallenge12`
  -- makes the secret that was put in, and the SHA-1 of the attestation key that it was made for, if
  -- SHA-1 gives 20 bytes.
  pub generate_challenge12-opens :
      (d : Decryption) (asymenc symenc : Bytes)
      → Inverts ciphers pubkey d
      → length (hs.sha1 akpub) ≡ sha1_size
      → generate_challenge12 hs ciphers rand pubkey akpub secret ≡ ok (asymenc, symenc)
      → open_challenge d asymenc symenc ≡ some (secret, hs.sha1 akpub)
  unfolding open_challenge open_identity open_secret
  generate_challenge12-opens d asymenc symenc inv l h =
      let p = parts asymenc symenc h in
      ap
        (λ o.
          and_then o
            (λ (key, digest). and_then (open_secret d key symenc) λ secret. some (secret, digest)))
        (identity p)
      ∙ ap (λ o. and_then o (λ secret. some (secret, hs.sha1 akpub))) (opened p)
    where
      identity : (p : Parts asymenc symenc) → open_identity d asymenc ≡ some (p.key, hs.sha1 akpub)
      identity p =
          let blob = make_activation_blob hs p.key akpub in
          let small : length blob < 2 ^ 32 =
            omega (arith, length-activation_blob hs p.key akpub, p.length_key, l) in
          ap (λ o. and_then o (λ b. and_then (open_ek_blob b) open_activation_blob))
            (inv.oaep p.rand2 (make_ek_blob blob) tcpa asymenc p.asym)
          ∙ ap (λ o. and_then o open_activation_blob) (make_ek_blob_open blob small)
          ∙ make_activation_blob_open hs p.key akpub (omega (arith, p.length_key)) l

      opened : (p : Parts asymenc symenc) → open_secret d p.key symenc ≡ some secret
      opened p =
          let padded = pad secret (length p.iv) in
          let (a, b, c, back) =
            pad-unpad secret (length p.iv) (omega (arith, p.length_iv))
              (omega (arith, p.length_iv)) in
          ap (open_secret d p.key) p.sym_parts
          ∙ taking-append 4 (to_be 4 2) (p.iv ++ p.cipher p.iv padded) _ refl
          ∙ taking-append 16 p.iv (p.cipher p.iv padded) _ p.length_iv
          ∙ ap unpad (inv.cbc p.key p.iv padded p.cipher p.created p.full)
          ∙ back

  -- `generateChallenge12` ends with a challenge or with an error: it does not panic on a block that
  -- is not full.
  pub generate_challenge12-Returns :
      Returns (generate_challenge12 hs ciphers rand pubkey akpub secret)
  unfolding generate_challenge12
  generate_challenge12-Returns =
      Returns-bind (read_full no_randomness 16 rand) _ (read_full-Returns no_randomness 16 rand)
        λ (key, rand1) q1.
          Returns-bind (read_full no_randomness 16 rand1) _
            (read_full-Returns no_randomness 16 rand1)
            λ (iv, rand2) q2.
              Returns-bind _ _
                (Returns-or_err
                  (ciphers.encrypt_oaep rand2 pubkey
                    (make_ek_blob (make_activation_blob hs key akpub)) tcpa)
                  encryption_failed)
                λ c q3.
                  Returns-bind _ _ (Returns-or_err (ciphers.new_cbc key) bad_cipher_key) λ cbc q4.
                    let sized = (read_full-parts no_randomness 16 rand1 iv rand2 q2).1 in
                    let full =
                      (pad-unpad secret (length iv) (omega (arith, sized))
                        (omega (arith, sized))).0 in
                    Returns-bind (crypt_blocks cbc iv (pad secret (length iv))) _
                      (crypt_blocks-Returns cbc iv (pad secret (length iv))
                        (subst (λ n. length (pad secret (length iv)) % n ≡ 0) sized full))
                      λ b q5. inl (_, refl)
