-- ===== src/Service/Heartbeat/Beat.antt =====
-- What packages/application/src/services/heartbeat.service.ts leaves in the table of leases, and which
-- leases it reports as stale.
use mathlib.Core.List.Memᴰ.{of_map}
use copilot_factory.Prelude.{
  ◌*◌, ◌||◌, ◌==◌, ==_iff, ltb, List, [], ◌∷◌, any, find_first, Bool-cases, inl, inr, Memᴰ,
  cases_cons, any-Memᴰ, Memᴰ-filterb, ℕ, ◌+◌, ◌≤◌, Bool, true, false, some, replace_first, ◌≡◌, ◌↔◌,
  refl, ap, sym, ◌∙◌, arith,
}
use copilot_factory.Domain.Status.Lease.{
  WorkerLeaseStatus, starting, running, heartbeating, lease_status_enum,
}
use copilot_factory.Domain.Machine.Lease.{validate_worker_lease_transition}
use copilot_factory.Service.Errors.{
  ok, or_throw, >>=-ok, or_throw-ok, unless_throw-ok, ok_injective,
}
use copilot_factory.Service.Tables.{
  LeaseRow, Tables, ReclaimReason, has_lease_id, find_lease, update_lease,
}
use copilot_factory.Service.Tables.Rows.{update_lease-ok}
use copilot_factory.Service.Heartbeat.{
  ReceiveHeartbeatParams, ReceiveHeartbeatResult, StalenessPolicy, is_receivable,
  compute_target_status, build_transition_context, set_heartbeat, extended_expiry, check_heartbeat,
  receive_heartbeat, is_heartbeat_stale, is_ttl_stale, find_stale_leases, classify_stale_record,
  detect_stale_leases,
}

beat_step :
    (s : WorkerLeaseStatus) (ends : Bool)
    → is_receivable s ≡ true
    → (validate_worker_lease_transition s
        (compute_target_status s ends)
        (build_transition_context s (compute_target_status s ends))).valid
      ≡ true
unfolding is_receivable compute_target_status build_transition_context
    validate_worker_lease_transition
beat_step starting true h = refl
beat_step starting false h = refl
beat_step running true h = refl
beat_step running false h = refl
beat_step heartbeating true h = refl
beat_step heartbeating false h = refl
beat_step _ ends h = absurd (ground arith)

pub check_heartbeat_iff :
    (p : ReceiveHeartbeatParams) (lease : LeaseRow)
    → (check_heartbeat p lease ≡ ok tt) ↔ (is_receivable lease.status ≡ true)
unfolding check_heartbeat
check_heartbeat_iff p lease = (
  λ h. let (_, e, _) = >>=-ok _ _ _ h in unless_throw-ok _ _ _ e,
  λ h.
      let h' : is_receivable lease.status ≡ true = h in
      let v = beat_step lease.status p.is_completing h in unfold is_receivable in rw (h', v) refl,
)

-- What a heartbeat that was received comes from, and what it leaves.
pub record Beat (now : ℕ) (p : ReceiveHeartbeatParams) (db : Tables)
    (w : Tables × ReceiveHeartbeatResult) : Type 0 where
  pub lease : LeaseRow
  pub found : find_lease p.lease_id db ≡ some lease
  pub receivable : is_receivable lease.status ≡ true
  pub row : w.1.lease ≡ set_heartbeat now p lease
  pub leases : w.0.leases ≡ replace_first (has_lease_id p.lease_id) (set_heartbeat now p) db.leases
  pub tasks : w.0.tasks ≡ db.tasks

pub receive_heartbeat-Beat :
    (now : ℕ) (p : ReceiveHeartbeatParams) (db : Tables) (w : Tables × ReceiveHeartbeatResult)
    → receive_heartbeat now p db ≡ ok w
    → Beat now p db w
unfolding receive_heartbeat
receive_heartbeat-Beat now p db w h =
    let (lease, h_lease, h1) = >>=-ok (or_throw (find_lease p.lease_id db) _) _ _ h in
    let found = or_throw-ok _ _ _ h_lease in
    let (_, h_check, h2) = >>=-ok (check_heartbeat p lease) _ _ h1 in
    let (updated, h_update, h3) =
      >>=-ok (update_lease p.lease_id lease.status (set_heartbeat now p) db) _ _ h2 in
    let e = update_lease-ok p.lease_id (set_heartbeat now p) db lease updated found h_update in
    record {
      lease = lease;
      found = found;
      receivable = (check_heartbeat_iff p lease).0 h_check;
      row = sym (ap (λ t. t.1.lease) (ok_injective _ _ h3)) ∙ ap (λ t. t.1) e;
      leases = sym (ap (λ t. t.0.leases) (ok_injective _ _ h3)) ∙ ap (λ t. t.0.leases) e;
      tasks = sym (ap (λ t. t.0.tasks) (ok_injective _ _ h3)) ∙ ap (λ t. t.0.tasks) e;
    }

-- `lease_id` is the primary key.
abbrev pub AreKeyed : List LeaseRow → Type 0
AreKeyed [] = Unit
AreKeyed (row ∷ rows) = (any (has_lease_id row.lease_id) rows ≡ false) × AreKeyed rows

module _ (id : ℕ) (f : LeaseRow → LeaseRow)
    (keeps : (x : LeaseRow) → (f x).lease_id ≡ x.lease_id) where
  stored :
      (rows : List LeaseRow) (lease : LeaseRow)
      → find_first (has_lease_id id) rows ≡ some lease
      → find_first (has_lease_id id) (replace_first (has_lease_id id) f rows) ≡ some (f lease)
  stored [] lease h = absurd (cc)
  stored (x ∷ xs) lease h = elim (Bool-cases (x.lease_id == id)) [
    | inl e ↦ let same_row : x ≡ lease = ground arith in ground (arith, keeps x, ap f same_row)
    | inr e ↦ ground (arith, stored xs lease (ground arith))
  ]

  -- No other row of the new table has the key.
  only_stored :
      (rows : List LeaseRow) (lease row : LeaseRow)
      → AreKeyed rows
      → find_first (has_lease_id id) rows ≡ some lease
      → Memᴰ row (replace_first (has_lease_id id) f rows)
      → row.lease_id ≡ id
      → row ≡ f lease
  only_stored [] lease row k h m e = absurd (cc)
  only_stored (x ∷ xs) lease row (unique, k) h m own = elim (Bool-cases (x.lease_id == id)) [
    | inl e ↦
        let same_row : x ≡ lease = ground arith in
        elim (cases_cons (rw e at m)) [
          | inl s ↦ s ∙ ap f same_row
          | inr n ↦
              let key : (row.lease_id == x.lease_id) ≡ true =
                ground (arith, ==_iff x.lease_id id, ==_iff row.lease_id x.lease_id) in
              let there = any-Memᴰ (has_lease_id x.lease_id) xs row n key in absurd (cc)
        ]
    | inr e ↦ elim (cases_cons (rw e at m)) [
      | inl s ↦
          let same_id : x.lease_id ≡ id = sym (ap (λ y. y.lease_id) s) ∙ own in
          let t = (==_iff x.lease_id id).1 same_id in absurd (cc)
      | inr n ↦ only_stored xs lease row k (rw e at h) n own
    ]
  ]

-- A lease that is reported for missing heartbeats has not passed its expiry, so it is one that the window
-- has passed for.
reported :
    (now : ℕ) (policy : StalenessPolicy) (db : Tables) (row : LeaseRow)
    → Memᴰ (row, ReclaimReason.missed_heartbeats) (detect_stale_leases now policy db)
    → Memᴰ row db.leases × (is_heartbeat_stale now policy row ≡ true)
unfolding detect_stale_leases find_stale_leases classify_stale_record is_ttl_stale
reported now policy db row m =
    let (r, k, e) = of_map (classify_stale_record now) (find_stale_leases now policy db) m in
    let same_row : r ≡ row = ap (λ y. y.0) e in
    let (l, t) =
      Memᴰ-filterb (λ row. is_heartbeat_stale now policy row || is_ttl_stale now row) db.leases r
        k in
    let reason = ap (λ y. y.1) e in
    elim (Bool-cases (ltb (r.expires_at * 1000) now)) [
      | inl x ↦ absurd (let reason' = rw x at reason in cc)
      | inr x ↦ (rw (← same_row) l, rw (← same_row) (in_time r x t))
    ]
  where
    in_time :
        (r : LeaseRow)
        → ltb (r.expires_at * 1000) now ≡ false
        → (is_heartbeat_stale now policy r || is_ttl_stale now r) ≡ true
        → is_heartbeat_stale now policy r ≡ true
    in_time r x t = ground arith

-- Where keys are unique: a heartbeat that was received is stored, and until the heartbeats that the policy
-- lets a worker miss and the grace period have passed, the lease is not among those that
-- `detectStaleLeases` reports for missing heartbeats.
pub receive_heartbeat_fresh :
    (sent now : ℕ) (p : ReceiveHeartbeatParams) (policy : StalenessPolicy) (db : Tables)
    (w : Tables × ReceiveHeartbeatResult)
    → AreKeyed db.leases
    → receive_heartbeat sent p db ≡ ok w
    → now
      ≤ sent
        + (policy.heartbeat_interval_seconds * policy.missed_heartbeat_threshold
            + policy.grace_period_seconds)
          * 1000
    → (find_lease p.lease_id w.0 ≡ some w.1.lease)
      × ((row : LeaseRow)
          → row.lease_id ≡ p.lease_id
          → ¬ Memᴰ (row, ReclaimReason.missed_heartbeats) (detect_stale_leases now policy w.0))
unfolding is_heartbeat_stale set_heartbeat
receive_heartbeat_fresh sent now p policy db w k h early =
    let b = receive_heartbeat-Beat sent p db w h in
    (
      rw (b.leases, b.row)
          (stored p.lease_id (set_heartbeat sent p) (λ x. refl) db.leases b.lease b.found),
      λ row own m.
          let (l, t) = reported now policy w.0 row m in
          let e =
            only_stored p.lease_id (set_heartbeat sent p) (λ x. refl) db.leases b.lease row k
              b.found (rw b.leases at l) own in
          absurd (let t' = rw e at t in ground arith),
    )

-- A heartbeat never shortens a lease, and one that does not complete leaves its expiry as it is.
pub receive_heartbeat_expiry :
    (sent : ℕ) (p : ReceiveHeartbeatParams) (db : Tables) (w : Tables × ReceiveHeartbeatResult)
    → receive_heartbeat sent p db ≡ ok w
    → (lease : LeaseRow) × (find_lease p.lease_id db ≡ some lease)
      × (lease.expires_at ≤ w.1.lease.expires_at)
      × ((p.is_completing ≡ false) → w.1.lease.expires_at ≡ lease.expires_at)
unfolding set_heartbeat extended_expiry
receive_heartbeat_expiry sent p db w h =
    let b = receive_heartbeat-Beat sent p db w h in
    (b.lease, b.found, rw b.row (ground arith), λ c. rw b.row (ground arith))
