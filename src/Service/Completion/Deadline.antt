-- ===== src/Service/Completion/Deadline.antt =====
-- When packages/application/src/services/graceful-completion.service.ts accepts a result.
use copilot_factory.Prelude.{
  ℕ, ◌+◌, ◌*◌, ◌≤◌, Bool, true, false, ◌==◌, ==_iff, ltb, none, some, ◌≡◌, ◌⊎◌, inl, inr, refl, ap,
  ◌∙◌, arith, Bool-cases, Option-cases, same, same_iff,
}
use copilot_factory.Domain.Status.Lease.{completing, timed_out, lease_status_enum}
use copilot_factory.Service.Errors.{ok, throw, EntityType, ServiceError}
use copilot_factory.Service.Tables.{LeaseRow, AuditState, Tables, find_lease, record_audit}
use copilot_factory.Service.Completion.{
  AcceptResultParams, AcceptResultResult, is_accepting, compute_grace_deadline, result_audit,
  acceptance, judge_result, accept_body, commit, accept_result,
}

-- A result that is in time, and whether it is a late one: while the lease is COMPLETING up to its expiry,
-- which the last heartbeat has extended; once it is TIMED_OUT for as long as the grace period after it.
pub data InTime (now grace : ℕ) (lease : LeaseRow) : Bool → Type 0 where
  on_time : lease.status ≡ completing → now ≤ lease.expires_at * 1000 → InTime now grace lease false
  late :
      lease.status ≡ timed_out
      → now ≤ (lease.expires_at + grace) * 1000
      → InTime now grace lease true

accepting-InTime :
    (now grace : ℕ) (lease : LeaseRow)
    → is_accepting lease.status ≡ true
    → ltb (compute_grace_deadline lease grace) now ≡ false
    → InTime now grace lease (same lease.status timed_out)
unfolding is_accepting compute_grace_deadline
accepting-InTime now grace lease a d = elim (Bool-cases (same lease.status completing)) [
  | inl c ↦
      let e = (same_iff lease.status completing).0 c in
      let i : same lease.status timed_out ≡ false = rw e refl in rw i (on_time e (ground arith))
  | inr c ↦
      let t : same lease.status timed_out ≡ true = ground arith in
      rw t (late ((same_iff lease.status timed_out).0 t) (ground arith))
]

InTime-accepting :
    (now grace : ℕ) (lease : LeaseRow) (is_late : Bool)
    → InTime now grace lease is_late
    → (is_accepting lease.status ≡ true) × (ltb (compute_grace_deadline lease grace) now ≡ false)
unfolding is_accepting compute_grace_deadline
InTime-accepting now grace lease _ (on_time e n) = (rw e refl, rw e (ground arith))
InTime-accepting now grace lease _ (late e n) = (rw e refl, rw e (ground arith))

-- A result that was accepted, and what was written.
pub record Accepted (now : ℕ) (p : AcceptResultParams) (db db' : Tables) (r : AcceptResultResult)
    : Type 0 where
  pub lease : LeaseRow
  pub found : find_lease p.lease_id db ≡ some lease
  pub holder : lease.worker_id ≡ p.worker_id
  pub in_time : InTime now p.grace_period_seconds lease r.late_acceptance
  pub same_lease : r.lease ≡ lease
  pub written : db' ≡ record_audit r.audit_event db

-- A result for a lease that the worker holds, in time.
abbrev pub IsAcceptable : ℕ → AcceptResultParams → Tables → Type 0
IsAcceptable now p db =
    (lease : LeaseRow) × (is_late : Bool) × (find_lease p.lease_id db ≡ some lease)
    × (lease.worker_id ≡ p.worker_id)
    × InTime now p.grace_period_seconds lease is_late

module _ (now : ℕ) (p : AcceptResultParams) (db : Tables) where
  accept_body-judge_result :
      (lease : LeaseRow)
      → find_lease p.lease_id db ≡ some lease
      → lease.worker_id ≡ p.worker_id
      → is_accepting lease.status ≡ true
      → accept_body now p db ≡ judge_result now p lease db
  unfolding accept_body
  accept_body-judge_result lease found worker accepting =
      let mine : (lease.worker_id == p.worker_id) ≡ true =
        (==_iff lease.worker_id p.worker_id).1 worker in
      let accepts : is_accepting lease.status ≡ true = accepting in
      unfold is_accepting in rw (found, mine, accepts, accept_body) refl

  -- What the body throws, the transaction throws, and it rolls back.
  abbrev Throws : Type 0
  Throws = (e : ServiceError) × (accept_result now p db ≡ (db, throw e))

  thrown :
      (written : Tables) (e : ServiceError) → accept_body now p db ≡ (written, throw e) → Throws
  unfolding accept_result
  thrown written e h = (e, ap (commit db) h)

  thrown_without_lease : find_lease p.lease_id db ≡ none → Throws
  unfolding accept_body
  thrown_without_lease f =
      let e = ServiceError.entity_not_found EntityType.task_lease p.lease_id in
      let h : accept_body now p db ≡ (db, throw e) = rw (accept_body, f) refl in thrown db e h

  thrown_for_other :
      (lease : LeaseRow)
      → find_lease p.lease_id db ≡ some lease
      → (lease.worker_id == p.worker_id) ≡ false
      → Throws
  unfolding accept_body
  thrown_for_other lease f m =
      let e = ServiceError.worker_mismatch p.lease_id lease.worker_id p.worker_id in
      let h : accept_body now p db ≡ (db, throw e) = rw (accept_body, f, m) refl in thrown db e h

  thrown_when_closed :
      (lease : LeaseRow)
      → find_lease p.lease_id db ≡ some lease
      → (lease.worker_id == p.worker_id) ≡ true
      → is_accepting lease.status ≡ false
      → Throws
  unfolding accept_body
  thrown_when_closed lease f m a =
      let a' : is_accepting lease.status ≡ false = a in
      let e = ServiceError.lease_not_accepting_results p.lease_id lease.status in
      let h : accept_body now p db ≡ (db, throw e) =
        unfold is_accepting in rw (accept_body, f, m, a') refl in
      thrown db e h

  thrown_when_late :
      (lease : LeaseRow)
      → accept_body now p db ≡ judge_result now p lease db
      → ltb (compute_grace_deadline lease p.grace_period_seconds) now ≡ true
      → Throws
  unfolding judge_result
  thrown_when_late lease b d =
      let deadline = compute_grace_deadline lease p.grace_period_seconds in
      let e = ServiceError.grace_period_expired p.lease_id deadline now in
      let rejected : Tables =
        record_audit
          (result_audit p lease "lease.result-rejected" (AuditState.result_rejected deadline now))
          db in
      let h : judge_result now p lease db ≡ (rejected, throw e) = rw (judge_result, d) refl in
      thrown rejected e (b ∙ h)

  returned :
      (lease : LeaseRow)
      → accept_body now p db ≡ judge_result now p lease db
      → ltb (compute_grace_deadline lease p.grace_period_seconds) now ≡ false
      → accept_result now p db
        ≡ (record_audit (acceptance now p lease).audit_event db, ok (acceptance now p lease))
  unfolding accept_result judge_result
  returned lease b d =
      let h : judge_result now p lease db
          ≡ (record_audit (acceptance now p lease).audit_event db, ok (acceptance now p lease)) =
        rw (judge_result, d) refl in
      ap (commit db) (b ∙ h)

  -- Nothing else is acceptable than the lease that was found.
  unacceptable :
      (lease : LeaseRow)
      → find_lease p.lease_id db ≡ some lease
      → (lease.worker_id ≡ p.worker_id
          → (is_late : Bool) → ¬ InTime now p.grace_period_seconds lease is_late)
      → ¬ IsAcceptable now p db
  unacceptable lease f k (other, is_late, g, h, t) =
      let same_lease : other ≡ lease = cc in k (rw same_lease at h) is_late (rw same_lease at t)

-- A call accepts a result that comes from the worker that holds the lease, while the lease is COMPLETING
-- and has not expired, or, as a late one, while it is TIMED_OUT and the grace period after its expiry has
-- not passed: it returns the lease and adds the audit event. For any other result it throws and leaves the
-- tables as they were, so that an audit event of a rejection is not kept either.
pub accept_result_cases :
    (now : ℕ) (p : AcceptResultParams) (db : Tables)
    → ((r : AcceptResultResult) × ((accept_result now p db).1 ≡ ok r)
        × Accepted now p db (accept_result now p db).0 r)
      ⊎ ((e : ServiceError) × (accept_result now p db ≡ (db, throw e)) × ¬ IsAcceptable now p db)
accept_result_cases now p db = elim (Option-cases (find_lease p.lease_id db)) [
  | inl f ↦
      let (e, h) = thrown_without_lease now p db f in
      inr (e, h, λ (lease, is_late, g, _, _). absurd (cc))
  | inr (lease, f) ↦ elim (Bool-cases (lease.worker_id == p.worker_id)) [
    | inr m ↦
        let (e, h) = thrown_for_other now p db lease f m in
        inr (
          e,
          h,
          unacceptable now p db lease f
              (λ own is_late t. let m' = (==_iff lease.worker_id p.worker_id).1 own in absurd (cc)),
        )
    | inl m ↦ elim (Bool-cases (is_accepting lease.status)) [
      | inr a ↦
          let (e, h) = thrown_when_closed now p db lease f m a in
          inr (
            e,
            h,
            unacceptable now p db lease f (λ own is_late t.
                let (a', _) = InTime-accepting now p.grace_period_seconds lease is_late t in
                absurd (cc)),
          )
      | inl a ↦
          let own = (==_iff lease.worker_id p.worker_id).0 m in
          let b = accept_body-judge_result now p db lease f own a in
          elim (Bool-cases (ltb (compute_grace_deadline lease p.grace_period_seconds) now)) [
            | inl d ↦
                let (e, h) = thrown_when_late now p db lease b d in
                inr (
                  e,
                  h,
                  unacceptable now p db lease f (λ own is_late t.
                      let (_, d') = InTime-accepting now p.grace_period_seconds lease is_late t in
                      absurd (cc)),
                )
            | inr d ↦
                let h = returned now p db lease b d in
                inl (
                  acceptance now p lease,
                  ap (λ x. x.1) h,
                  record {
                    lease = lease;
                    found = f;
                    holder = own;
                    in_time = accepting-InTime now p.grace_period_seconds lease a d;
                    same_lease = refl;
                    written = ap (λ x. x.0) h;
                  },
                )
          ]
    ]
  ]
]
