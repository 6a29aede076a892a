-- ===== src/Classify/Registry.antt =====
-- The registered classifiers of error_classification.go. The lock makes each call one step.
use batchflow.Prelude.{
  ℕ, ◌+◌, ◌%◌, ◌^◌, ◌≤◌, ◌<◌, ◌≡◌, refl, ◌==◌, List, [], ◌∷◌, ◌++◌, arith, All, if◌then◌else◌,
}
use batchflow.Classify.{Classifier}

pub record Registered : Type 0 where
  pub id : ℕ
  pub classifier : Classifier

pub record Registry : Type 0 where
  pub next_id : ℕ  -- uint64
  pub custom : List Registered

-- RegisterErrorClassifier, on a classifier that is not nil: the id stands for the function that
-- is returned, which unregisters it.
unfoldable pub register : Classifier → Registry → Registry × ℕ
register c r =
    let id = (r.next_id + 1) % 2 ^ 64 in
    (record { next_id = id; custom = r.custom ++ record { id = id; classifier = c } ∷ [] }, id)

unfoldable pub remove_id : ℕ → List Registered → List Registered
remove_id id [] = []
remove_id id (c ∷ cs) = if c.id == id then cs else c ∷ remove_id id cs

unfoldable pub unregister : ℕ → Registry → Registry
unfolding remove_id
unregister id r = record r { custom = remove_id id r.custom }

-- snapshotCustomErrorClassifiers
unfoldable pub classifiers_of : List Registered → List Classifier
classifiers_of [] = []
classifiers_of (c ∷ cs) = c.classifier ∷ classifiers_of cs

unfoldable pub snapshot : Registry → List Classifier
unfolding classifiers_of
snapshot r = classifiers_of r.custom

-- The ids in use are at most the last one that was given.
pub record IsValid (r : Registry) : Type 0 where
  pub in_use : All (λ (c : Registered). c.id ≤ r.next_id) r.custom

Below-mono :
    (n m : ℕ) (cs : List Registered)
    → n ≤ m
    → All (λ (c : Registered). c.id ≤ n) cs
    → All (λ (c : Registered). c.id ≤ m) cs
Below-mono n m [] h all = tt
Below-mono n m (c ∷ cs) h all = (omega (arith, all.0), Below-mono n m cs h all.1)

Below-append :
    (n : ℕ) (cs : List Registered) (c : Registered)
    → c.id ≤ n
    → All (λ (d : Registered). d.id ≤ n) cs
    → All (λ (d : Registered). d.id ≤ n) (cs ++ c ∷ [])
Below-append n [] c h all = (h, tt)
Below-append n (d ∷ cs) c h all = (all.0, Below-append n cs c h all.1)

Below-remove_id :
    (id n : ℕ) (cs : List Registered)
    → All (λ (c : Registered). c.id ≤ n) cs
    → All (λ (c : Registered). c.id ≤ n) (remove_id id cs)
unfolding remove_id
Below-remove_id id n [] all = tt
Below-remove_id id n (c ∷ cs) all = ground (arith, Below-remove_id id n cs all.1)

remove_id-append :
    (id : ℕ) (cs : List Registered) (n : ℕ) (c : Registered)
    → All (λ (d : Registered). d.id ≤ n) cs
    → n < id
    → c.id ≡ id
    → remove_id id (cs ++ c ∷ []) ≡ cs
unfolding remove_id
remove_id-append id [] n c all h e = ground arith
remove_id-append id (d ∷ cs) n c all h e = ground (arith, remove_id-append id cs n c all.1, all.0)

-- While fewer than 2^64 - 1 ids were given, registering and unregistering both keep the ids in use no
-- greater than the last one that was given.
pub register-IsValid :
    (c : Classifier) (id : ℕ) (r : Registry)
    → r.next_id + 1 < 2 ^ 64
    → IsValid r
    → IsValid (register c r).0 × IsValid (unregister id r)
unfolding register unregister
register-IsValid c id r h v =
    let fresh : (r.next_id + 1) % 2 ^ 64 ≡ r.next_id + 1 = omega arith in
    (
      record {
        in_use =
            Below-append _ r.custom _ (omega arith)
              (Below-mono _ _ r.custom (omega (arith, fresh)) v.in_use);
      },
      record { in_use = Below-remove_id id r.next_id r.custom v.in_use },
    )

-- While fewer than 2^64 - 1 ids were given and those in use are no greater than the last one, the
-- function that a registration returns takes back that registration, and no other.
pub unregister-register :
    (c : Classifier) (r : Registry)
    → r.next_id + 1 < 2 ^ 64
    → IsValid r
    → (unregister (register c r).1 (register c r).0).custom ≡ r.custom
unfolding register unregister
unregister-register c r h v =
    let fresh : r.next_id < (r.next_id + 1) % 2 ^ 64 = omega arith in
    remove_id-append ((r.next_id + 1) % 2 ^ 64) r.custom r.next_id _ v.in_use fresh refl
