-- ===== src/Verification/Alignment.antt =====
-- Declared checks and receipts that stand in pairs, and the loop of `attach_verification_receipt` in
-- core/verification.py over the two dicts that are made of them.
use sciguard_autopilot.Base.{
  ◌≡◌, refl, sym, ap, subst, ◌∙◌, inl, inr, String, true, false, some, List, [], ◌∷◌, arith, ◌||◌,
  contains, NoDup, ok, eq_iff, eq_refl, eq_comm, Bool-cases, ◌==◌,
}
use sciguard_autopilot.Base.Dict.{Dict, lookup, insert, keys}
use sciguard_autopilot.Repair.{VerificationCheck, subset}
use sciguard_autopilot.Verification.{VerificationCheckReceipt}
use sciguard_autopilot.Verification.Attaching.{
  matches_check, match_checks, declared_checks, observed_checks, declared_into, observed_into,
}

-- Pairs of a check and its receipt.
abbrev pub Pairwise : List VerificationCheck → List VerificationCheckReceipt → Type 0
Pairwise [] [] = Unit
Pairwise (c ∷ cs) (r ∷ rs) =
    (c.check_id ≡ r.check_id) × (matches_check c r ≡ ok tt) × Pairwise cs rs
Pairwise _ _ = ⊥

abbrev Aligned : Dict VerificationCheck → Dict VerificationCheckReceipt → Type 0
Aligned [] [] = Unit
Aligned ((j, c) ∷ d) ((k, r) ∷ o) = (j ≡ k) × (matches_check c r ≡ ok tt) × Aligned d o
Aligned _ _ = ⊥

insert-Aligned :
    (k : String) (c : VerificationCheck) (r : VerificationCheckReceipt) (d : Dict VerificationCheck)
    (o : Dict VerificationCheckReceipt)
    → matches_check c r ≡ ok tt
    → Aligned d o
    → Aligned (insert k c d) (insert k r o)
insert-Aligned k c r [] [] m a = (refl, m, tt)
insert-Aligned k c r [] (y ∷ o) m a = absurd a
insert-Aligned k c r (x ∷ d) [] m a = absurd a
insert-Aligned k c r ((i, x) ∷ d) ((j, y) ∷ o) m a = elim (Bool-cases (i == k)) [
  | inl this ↦
      let same : (j == k) ≡ true = ap (λ (s : String). s == k) (sym a.0) ∙ this in
      rw (this, same) (a.0, m, a.2)
  | inr other ↦
      let same : (j == k) ≡ false = ap (λ (s : String). s == k) (sym a.0) ∙ other in
      rw (other, same) (a.0, a.1, insert-Aligned k c r d o m a.2)
]

into-Aligned :
    (cs : List VerificationCheck) (rs : List VerificationCheckReceipt) (d : Dict VerificationCheck)
    (o : Dict VerificationCheckReceipt)
    → Pairwise cs rs
    → Aligned d o
    → Aligned (declared_into d cs) (observed_into o rs)
into-Aligned [] [] d o p a = a
into-Aligned [] (r ∷ rs) d o p a = absurd p
into-Aligned (c ∷ cs) [] d o p a = absurd p
into-Aligned (c ∷ cs) (r ∷ rs) d o p a = into-Aligned cs rs _ _ p.2 (
    subst (λ k. Aligned (insert c.check_id c d) (insert k r o)) p.0
      (insert-Aligned c.check_id c r d o p.1 a))

module _ {V : Type 0} where
  contains-insert :
      (j k : String) (v : V) (d : Dict V)
      → contains j (keys (insert k v d)) ≡ (k == j || contains j (keys d))
  contains-insert j k v [] = refl
  contains-insert j k v ((i, w) ∷ d) =
      ground (arith, eq_iff i k, eq_iff i j, eq_iff k j, contains-insert j k v d)

  insert-NoDup : (k : String) (v : V) (d : Dict V) → NoDup (keys d) → NoDup (keys (insert k v d))
  insert-NoDup k v [] h = (refl, tt)
  insert-NoDup k v ((i, w) ∷ d) h = elim (Bool-cases (i == k)) [
    | inl this ↦ rw this h
    | inr other ↦
        rw other
          (ground (arith, contains-insert i k v d, eq_comm i k, other, h), insert-NoDup k v d h.1)
  ]

declared_into-NoDup :
    (d : Dict VerificationCheck) (cs : List VerificationCheck)
    → NoDup (keys d)
    → NoDup (keys (declared_into d cs))
declared_into-NoDup d [] h = h
declared_into-NoDup d (c ∷ cs) h =
    declared_into-NoDup (insert c.check_id c d) cs (insert-NoDup c.check_id c d h)

-- Each declared check finds its receipt.
abbrev Finds : Dict VerificationCheck → Dict VerificationCheckReceipt → Type 0
Finds [] o = Unit
Finds ((k, c) ∷ d) o =
    ((r : VerificationCheckReceipt) × (lookup k o ≡ some r) × (matches_check c r ≡ ok tt))
    × Finds d o

Finds-skip :
    (j : String) (r : VerificationCheckReceipt) (d : Dict VerificationCheck)
    (o : Dict VerificationCheckReceipt)
    → contains j (keys d) ≡ false
    → Finds d o
    → Finds d ((j, r) ∷ o)
Finds-skip j r [] o h f = tt
Finds-skip j r ((k, c) ∷ d) o h f =
    ((f.0.0, ground (arith, eq_comm j k, f.0.1), f.0.2), Finds-skip j r d o (ground arith) f.1)

Aligned-Finds :
    (d : Dict VerificationCheck) (o : Dict VerificationCheckReceipt)
    → NoDup (keys d)
    → Aligned d o
    → Finds d o
Aligned-Finds [] [] h a = tt
Aligned-Finds [] (y ∷ o) h a = absurd a
Aligned-Finds (x ∷ d) [] h a = absurd a
Aligned-Finds ((k, c) ∷ d) ((j, r) ∷ o) h a = (
  (r, ground (arith, eq_iff j k, a.0), a.1),
  Finds-skip j r d o (rw (sym a.0) h.0) (Aligned-Finds d o h.1 a.2),
)

Finds-match_checks :
    (d : Dict VerificationCheck) (o : Dict VerificationCheckReceipt)
    → Finds d o
    → match_checks d o ≡ ok tt
Finds-match_checks [] o f = refl
Finds-match_checks ((k, c) ∷ d) o f = rw (f.0.1, f.0.2) (Finds-match_checks d o f.1)

keys-Aligned :
    (d : Dict VerificationCheck) (o : Dict VerificationCheckReceipt) → Aligned d o → keys o ≡ keys d
keys-Aligned [] [] a = refl
keys-Aligned [] (y ∷ o) a = absurd a
keys-Aligned (x ∷ d) [] a = absurd a
keys-Aligned ((k, c) ∷ d) ((j, r) ∷ o) a = rw (a.0, keys-Aligned d o a.2) refl

all_members :
    (xs ys : List String)
    → ((x : String) → contains x xs ≡ true → contains x ys ≡ true)
    → subset xs ys ≡ true
all_members [] ys h = refl
all_members (x ∷ xs) ys h =
    ground (arith, h x, eq_refl x, all_members xs ys (λ y m. h y (ground arith)))

-- Receipts that stand in pairs with the declared checks, and match them, pass the tests of the
-- attachment.
pub Pairwise-matched :
    (cs : List VerificationCheck) (rs : List VerificationCheckReceipt)
    → Pairwise cs rs
    → (keys (observed_checks rs) ≡ keys (declared_checks cs))
      × (subset (keys (declared_checks cs)) (keys (declared_checks cs)) ≡ true)
      × (match_checks (declared_checks cs) (observed_checks rs) ≡ ok tt)
Pairwise-matched cs rs p =
    let a = into-Aligned cs rs [] [] p tt in
    (
      keys-Aligned (declared_checks cs) (observed_checks rs) a,
      all_members (keys (declared_checks cs)) (keys (declared_checks cs)) (λ x h. h),
      Finds-match_checks (declared_checks cs) (observed_checks rs) (
          Aligned-Finds (declared_checks cs) (observed_checks rs) (declared_into-NoDup [] cs tt) a),
    )
