-- ===== src/Service/Scheduler/Pools.antt =====
-- The choice of a pool in packages/application/src/services/scheduler.service.ts.
use text.Mathlib.TextEquality.{eq_iff}
use text.Mathlib.Text.{◌==◌ as str_eq}
use copilot_factory.Prelude.{
  ◌≤◌, ◌<◌, true, false, ◌&&◌, Option, none, some, String, List, [], ◌∷◌, all, filterb, ◌≡◌, ◌⊎◌,
  ◌↔◌, inl, inr, refl, arith, Bool-cases, Option-cases, Memᴰ, not-nil, cases_cons, Memᴰ-filterb,
  filterb-Memᴰ,
}
use copilot_factory.Service.Scheduler.{
  SchedulableTask, SchedulablePool, provides, is_pool_compatible, has_pool_capacity, available,
  exceeds, select_from, choose_pool,
}

provides_iff :
    (capabilities : List String) (cap : String)
    → (provides capabilities cap ≡ true) ↔ Memᴰ cap capabilities
provides_iff [] cap = (λ h. absurd (cc), λ m. absurd (not-nil m))
provides_iff (c ∷ cs) cap = (
  λ h. elim (Bool-cases (str_eq cap c)) [
    | inl e ↦ Memᴰ.head ((eq_iff cap c).0 e)
    | inr e ↦ Memᴰ.tail ((provides_iff cs cap).0 (ground arith))
  ],
  λ m. elim (cases_cons m) [
    | inl e ↦ ground (arith, (eq_iff cap c).1 e)
    | inr n ↦ ground (arith, (provides_iff cs cap).1 n)
  ],
)

all-provides_iff :
    (capabilities caps : List String)
    → (all (provides capabilities) caps ≡ true)
      ↔ ((cap : String) → Memᴰ cap caps → Memᴰ cap capabilities)
all-provides_iff capabilities [] = (λ h cap m. absurd (not-nil m), λ h. refl)
all-provides_iff capabilities (c ∷ cs) = (
  λ h cap m. elim (cases_cons m) [
    | inl e ↦ rw e ((provides_iff capabilities c).0 (ground arith))
    | inr n ↦ (all-provides_iff capabilities cs).0 (ground arith) cap n
  ],
  λ h.
      rw
        (
          (provides_iff capabilities c).1 (h c (Memᴰ.head refl)),
          (all-provides_iff capabilities cs).1 (λ cap m. h cap (Memᴰ.tail m)),
        )
        refl,
)

abbrev pub IsCompatible : SchedulableTask → SchedulablePool → Type 0
IsCompatible task pool =
    (cap : String) → Memᴰ cap task.required_capabilities → Memᴰ cap pool.capabilities

-- A task without required capabilities takes the early return, which says the same.
pub is_pool_compatible_iff :
    (task : SchedulableTask) (pool : SchedulablePool)
    → (is_pool_compatible task pool ≡ true) ↔ IsCompatible task pool
unfolding is_pool_compatible
is_pool_compatible_iff task pool = go task.required_capabilities
  where
    go :
        (caps : List String)
        → ((elim caps [ [] ↦ true | c ∷ cs ↦ all (provides pool.capabilities) (c ∷ cs) ]) ≡ true)
          ↔ ((cap : String) → Memᴰ cap caps → Memᴰ cap pool.capabilities)
    go [] = (λ h cap m. absurd (not-nil m), λ h. refl)
    go (c ∷ cs) = all-provides_iff pool.capabilities (c ∷ cs)

abbrev pub HasRoom : SchedulablePool → Type 0
HasRoom pool = pool.active_lease_count < pool.max_concurrency

has_pool_capacity_iff : (pool : SchedulablePool) → (has_pool_capacity pool ≡ true) ↔ HasRoom pool
unfolding has_pool_capacity
has_pool_capacity_iff pool = ground arith

-- What the loop has kept is at least as good as what it started from and what it has seen.
record Best (best : Option SchedulablePool) (pools : List SchedulablePool) (p : SchedulablePool)
    : Type 0 where
  pub from : (best ≡ some p) ⊎ (Memᴰ p pools × HasRoom p)
  pub above_best : (b : SchedulablePool) → best ≡ some b → available b ≤ available p
  pub above_all : (q : SchedulablePool) → Memᴰ q pools → HasRoom q → available q ≤ available p

select_from-Best :
    (best : Option SchedulablePool) (pools : List SchedulablePool) (p : SchedulablePool)
    → select_from best pools ≡ some p
    → Best best pools p
unfolding select_from
select_from-Best best [] p h = record {
  from = inl h;
  above_best = λ b e. let same_pool : b ≡ p = cc in rw same_pool (ground arith);
  above_all = λ q m. absurd (not-nil m);
}
select_from-Best best (r ∷ rs) p h =
    elim (Bool-cases (has_pool_capacity r && exceeds (available r) best)) [
      | inl e ↦
          let b = select_from-Best (some r) rs p (rw (e, select_from) at h) in
          let room : HasRoom r = (has_pool_capacity_iff r).0 (ground arith) in
          record {
            from = elim b.from [
              | inl s ↦ let same_pool : p ≡ r = cc in inr (Memᴰ.head same_pool, rw same_pool room)
              | inr (m, k) ↦ inr (Memᴰ.tail m, k)
            ];
            above_best = λ o s.
                let kept : exceeds (available r) best ≡ true = ground arith in
                let better = rw s at kept in ground (arith, b.above_best r refl);
            above_all = λ q m k. elim (cases_cons m) [
              | inl s ↦ rw s (b.above_best r refl)
              | inr n ↦ b.above_all q n k
            ];
          }
      | inr e ↦
          let b = select_from-Best best rs p (rw (e, select_from) at h) in
          record {
            from = elim b.from [ inl s ↦ inl s | inr (m, k) ↦ inr (Memᴰ.tail m, k) ];
            above_best = b.above_best;
            above_all = λ q m k. elim (cases_cons m) [
              | inl s ↦
                  rw s
                    (passed_over best r p e ((has_pool_capacity_iff r).1 (rw s at k)) b.above_best)
              | inr n ↦ b.above_all q n k
            ];
          }
    ]
  where
    passed_over :
        (best : Option SchedulablePool) (r p : SchedulablePool)
        → (has_pool_capacity r && exceeds (available r) best) ≡ false
        → has_pool_capacity r ≡ true
        → ((b : SchedulablePool) → best ≡ some b → available b ≤ available p)
        → available r ≤ available p
    passed_over none r p e k a = absurd (ground arith)
    passed_over (some o) r p e k a = ground (arith, a o refl)

select_from-none :
    (best : Option SchedulablePool) (pools : List SchedulablePool)
    → select_from best pools ≡ none
    → (best ≡ none) × ((q : SchedulablePool) → Memᴰ q pools → ¬ HasRoom q)
unfolding select_from
select_from-none best [] h = (h, λ q m. absurd (not-nil m))
select_from-none best (r ∷ rs) h =
    elim (Bool-cases (has_pool_capacity r && exceeds (available r) best)) [
      | inl e ↦ let (n, _) = select_from-none (some r) rs (rw (e, select_from) at h) in absurd (cc)
      | inr e ↦
          let (n, k) = select_from-none best rs (rw (e, select_from) at h) in
          let e' = rw n at e in
          (
            n,
            λ q m room. elim (cases_cons m) [
              | inl s ↦ absurd (ground (arith, (has_pool_capacity_iff r).1 (rw s at room)))
              | inr l ↦ k q l room
            ],
          )
    ]

-- The pool that a task gets: it is one of the pools, it provides every capability that the task
-- requires, it has room, and no other such pool has more free slots.
pub record Chosen (task : SchedulableTask) (pools : List SchedulablePool) (pool : SchedulablePool)
    : Type 0 where
  pub listed : Memᴰ pool pools
  pub compatible : IsCompatible task pool
  pub room : HasRoom pool
  pub best :
      (other : SchedulablePool)
      → Memᴰ other pools
      → IsCompatible task other
      → HasRoom other
      → available other ≤ available pool

pub choose_pool-Chosen :
    (task : SchedulableTask) (pools : List SchedulablePool) (pool : SchedulablePool)
    → choose_pool task pools ≡ some pool
    → Chosen task pools pool
choose_pool-Chosen task pools pool h =
    let b = select_from-Best none (filterb (is_pool_compatible task) pools) pool h in
    elim b.from [
      | inl e ↦ absurd (cc)
      | inr (m, room) ↦
          let (listed, c) = Memᴰ-filterb (is_pool_compatible task) pools pool m in
          record {
            listed = listed;
            compatible = (is_pool_compatible_iff task pool).0 c;
            room = room;
            best = λ other l c' k.
                b.above_all other
                  (filterb-Memᴰ (is_pool_compatible task) pools other l
                    ((is_pool_compatible_iff task other).1 c'))
                  k;
          }
    ]

-- No pool is chosen exactly when every pool that provides the capabilities is full.
pub choose_pool-none_iff :
    (task : SchedulableTask) (pools : List SchedulablePool)
    → (choose_pool task pools ≡ none)
      ↔ ((pool : SchedulablePool) → Memᴰ pool pools → IsCompatible task pool → ¬ HasRoom pool)
choose_pool-none_iff task pools = (
  λ h pool m c.
      let (_, full) = select_from-none none (filterb (is_pool_compatible task) pools) h in
      full pool (
        filterb-Memᴰ (is_pool_compatible task) pools pool m
          ((is_pool_compatible_iff task pool).1 c)),
  λ h. elim (Option-cases (choose_pool task pools)) [
    | inl e ↦ e
    | inr (pool, e) ↦
        let c = choose_pool-Chosen task pools pool e in absurd (h pool c.listed c.compatible c.room)
  ],
)
