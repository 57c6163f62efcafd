-- ===== src/EventLog/Append/Algs.antt =====
-- The algorithms of the logs that `AppendEvents` puts together: `findAlg` and its checks.
use go_attestation.Base.{
  ℕ, ◌≤◌, ◌<◌, ◌≡◌, ◌≢◌, refl, subst, List, [], ◌∷◌, All, arith, inl, inr, true, Bool-cases, some,
}
use go_attestation.Hash.{hash_alg, crypto_hash}
use go_attestation.Runtime.Result.{ok}
use go_attestation.EventLog.{SpecAlgSize, has_alg, alg_eq}
use go_attestation.EventLog.Parse.Events.{find_alg}
use go_attestation.EventLog.Append.{check_algs, written_alg}

-- A list of algorithms whose IDs are single bytes and pairwise different.
abbrev pub Lacks : ℕ → List SpecAlgSize → Type 0
Lacks id = All (λ (b : SpecAlgSize). b.id ≢ id)

abbrev pub IsUnambiguous : List SpecAlgSize → Type 0
IsUnambiguous [] = Unit
IsUnambiguous (a ∷ more) = (a.id < 256) × Lacks a.id more × IsUnambiguous more

find_alg-Lacks :
    (algs : List SpecAlgSize) (id left : ℕ) (found : ℕ × ℕ)
    → Lacks id algs
    → find_alg algs id left found ≡ some found
unfolding find_alg
find_alg-Lacks [] id left found h = refl
find_alg-Lacks (a ∷ more) id left found h =
    ground (arith, h.0, find_alg-Lacks more id left found h.1)

not_Lacks : (algs : List SpecAlgSize) (a : SpecAlgSize) → has_alg algs a ≡ true → ¬ Lacks a.id algs
not_Lacks [] a h l = cc
not_Lacks (b ∷ more) a h l = ground (arith, l.0, not_Lacks more a)

-- In such a list the search finds the entry with the ID.
pub find_alg-member :
    (algs : List SpecAlgSize) (a : SpecAlgSize) (left : ℕ) (found : ℕ × ℕ)
    → IsUnambiguous algs
    → has_alg algs a ≡ true
    → a.size ≤ left
    → find_alg algs a.id left found ≡ some (a.size, crypto_hash (hash_alg a.id))
unfolding find_alg
find_alg-member [] a left found u h fits = cc
find_alg-member (b ∷ more) a left found u h fits = elim (Bool-cases (alg_eq b a)) [
  | inl same ↦ ground (
    arith,
    same,
    find_alg-Lacks more a.id left (a.size, crypto_hash (hash_alg a.id)) (rw (← same_id same) u.1),
  )
  | inr other ↦
      let later : has_alg more a ≡ true = ground (arith, h, other) in
      let ne : b.id ≢ a.id = λ e. not_Lacks more a later (rw (← e) u.1) in
      ground (arith, ne, find_alg-member more a left found u.2 later fits)
]
  where
    same_id : alg_eq b a ≡ true → b.id ≡ a.id
    same_id e = ground arith

alg_eq→eq : (b a : SpecAlgSize) → alg_eq b a ≡ true → b ≡ a
alg_eq→eq b a h = ground arith

pub has_alg-id :
    (algs : List SpecAlgSize) (a : SpecAlgSize)
    → IsUnambiguous algs
    → has_alg algs a ≡ true
    → a.id < 256
has_alg-id [] a u h = cc
has_alg-id (b ∷ more) a u h = ground (arith, has_alg-id more a)

pub check_algs-member :
    (i : ℕ) (base_algs algs : List SpecAlgSize) (a : SpecAlgSize)
    → check_algs i base_algs algs ≡ ok tt
    → has_alg algs a ≡ true
    → has_alg base_algs a ≡ true
unfolding check_algs
check_algs-member i base_algs [] a h m = cc
check_algs-member i base_algs (b ∷ more) a h m = elim (Bool-cases (has_alg base_algs b)) [
  | inr missing ↦ cc (rw missing at h)
  | inl present ↦ elim (Bool-cases (alg_eq b a)) [
    | inl same ↦ subst (λ c. has_alg base_algs c ≡ true) (alg_eq→eq b a same) present
    | inr other ↦ check_algs-member i base_algs more a (rw present at h) (rw other at m)
  ]
]

-- The number that is written for a digest is the ID of the algorithm that read it.
pub written_alg-id :
    (i x id w : ℕ) → id < 256 → written_alg i x (crypto_hash (hash_alg id)) ≡ ok w → w ≡ id
unfolding written_alg
written_alg-id i x id w h e = ground arith
