-- ===== src/Service/Errors.antt =====
-- packages/application/src/errors.ts. A call of a service runs in one transaction: it returns the new
-- tables and its result, or it throws, and then the tables are as before.
use copilot_factory.Prelude.{ℕ, Bool, true, false, List, Option, none, some, String, ◌≡◌, refl}
use copilot_factory.Domain.Status.Task.{TaskStatus}
use copilot_factory.Domain.Status.Lease.{WorkerLeaseStatus}
use copilot_factory.Domain.Status.Review.{ReviewCycleStatus}
use copilot_factory.Domain.Status.Queue.{MergeQueueItemStatus}
use copilot_factory.Domain.Status.Job.{JobStatus}

-- The texts "Task", "TaskLease", "ReviewCycle", "MergeQueueItem" and "Job"; the last is that of the table of
-- dependencies, for an error of the database.
pub data EntityType : Type 0 where
  task task_lease review_cycle merge_queue_item job task_dependency : EntityType

-- The statuses that an error quotes.
pub data Status : Type 0 where
  of_task : TaskStatus → Status
  of_lease : WorkerLeaseStatus → Status
  of_review : ReviewCycleStatus → Status
  of_queue : MergeQueueItemStatus → Status
  of_job : JobStatus → Status

-- `expectedVersion` is a number for tasks and a status for the rest.
pub data Version : Type 0 where
  number : ℕ → Version
  status : Status → Version

pub data ServiceError : Type 0 where
  entity_not_found : EntityType → ℕ → ServiceError
  invalid_transition : EntityType → ℕ → Status → Status → Option String → ServiceError
  version_conflict : EntityType → ℕ → Version → ServiceError
  exclusivity_violation : ℕ → ℕ → ServiceError
  cyclic_dependency : ℕ → ℕ → List ℕ → ServiceError
  duplicate_dependency : ℕ → ℕ → ServiceError
  self_dependency : ℕ → ServiceError
  lease_not_active : ℕ → WorkerLeaseStatus → ServiceError
  task_not_ready_for_lease : ℕ → TaskStatus → ServiceError
  lease_not_reclaimable : ℕ → WorkerLeaseStatus → ServiceError
  worker_mismatch : ℕ → ℕ → ℕ → ServiceError
  lease_not_accepting_results : ℕ → WorkerLeaseStatus → ServiceError
  grace_period_expired : ℕ → ℕ → ℕ → ServiceError
  -- What the database throws when a row is inserted under a primary key that is taken.
  primary_key_violation : EntityType → ℕ → ServiceError
  -- What it throws when a lease names a worker pool that is not there.
  foreign_key_violation : ℕ → ServiceError

pub data Result {ℓ} (A : Type ℓ) : Type ℓ where
  ok : A → Result A
  throw : ServiceError → Result A

infixl 5 ◌>>=◌ ◌>>◌
abbrev pub ◌>>=◌ {ℓ κ} : {A : Type ℓ} {B : Type κ} → Result A → (A → Result B) → Result B
ok a >>= f = f a
throw e >>= f = throw e

abbrev pub ◌>>◌ {ℓ} : {B : Type ℓ} → Result (Unit {0}) → Result B → Result B
m >> k = m >>= λ _. k

-- `if (!test) throw error`.
abbrev pub unless_throw : Bool → ServiceError → Result (Unit {0})
unless_throw true e = ok tt
unless_throw false e = throw e

-- `if (test) throw error`.
abbrev pub if_throw : Bool → ServiceError → Result (Unit {0})
if_throw true e = throw e
if_throw false e = ok tt

-- `if (!row) throw error`.
abbrev pub or_throw {ℓ} : {A : Type ℓ} → Option A → ServiceError → Result A
or_throw none e = throw e
or_throw (some a) e = ok a

-- What a call that returns says of its parts.
pub >>=-ok {ℓ κ} :
    {A : Type ℓ} {B : Type κ} (m : Result A) (f : A → Result B) (b : B)
    → (m >>= f) ≡ ok b
    → (a : A) × (m ≡ ok a) × (f a ≡ ok b)
>>=-ok (ok a) f b h = (a, refl, h)
>>=-ok (throw e) f b h = absurd (cc)

pub or_throw-ok {ℓ} :
    {A : Type ℓ} (o : Option A) (e : ServiceError) (a : A) → or_throw o e ≡ ok a → o ≡ some a
or_throw-ok none e a h = absurd (cc)
or_throw-ok (some x) e a h = cc

pub unless_throw-ok :
    (test : Bool) (e : ServiceError) (u : Unit {0}) → unless_throw test e ≡ ok u → test ≡ true
unless_throw-ok true e u h = refl
unless_throw-ok false e u h = absurd (cc)

pub if_throw-ok :
    (test : Bool) (e : ServiceError) (u : Unit {0}) → if_throw test e ≡ ok u → test ≡ false
if_throw-ok true e u h = absurd (cc)
if_throw-ok false e u h = refl

-- A call whose first part returns returns what the rest does.
pub >>=-passes {ℓ κ} :
    {A : Type ℓ} {B : Type κ} (m : Result A) (f : A → Result B) (a : A)
    → m ≡ ok a
    → (b : B) × (f a ≡ ok b)
    → (b : B) × ((m >>= f) ≡ ok b)
>>=-passes m f a e (b, h) = (b, rw e h)

pub or_throw-passes {ℓ κ} :
    {A : Type ℓ} {B : Type κ} (o : Option A) (e : ServiceError) (f : A → Result B) (a : A)
    → o ≡ some a
    → (b : B) × (f a ≡ ok b)
    → (b : B) × ((or_throw o e >>= f) ≡ ok b)
or_throw-passes o e f a h (b, k) = (b, rw h k)

pub unless_throw-passes {κ} :
    {B : Type κ} (test : Bool) (e : ServiceError) (f : Unit {0} → Result B)
    → test ≡ true
    → (b : B) × (f tt ≡ ok b)
    → (b : B) × ((unless_throw test e >>= f) ≡ ok b)
unless_throw-passes test e f h (b, k) = (b, rw h k)

pub ok_injective {ℓ} : {A : Type ℓ} (a b : A) → ok a ≡ ok b → a ≡ b
ok_injective a b h = cc
