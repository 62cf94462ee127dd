-- ===== src/Pizzeria/Liveness.antt =====
-- The cooks and suppliers of cw07/zad1 never all wait for one another.
use operating_systems_course.Common.{
  ℕ, ◌+◌, ◌<◌, ◌≡◌, refl, ap, ◌∙◌, Option, ◌≢◌, none, some, Bool, true, false, arith, ℕ_discrete,
  dec_lt,
}
use operating_systems_course.Pizzeria.Process.{
  Kitchen, Pc, preparing, waiting, fetching, picking, picked, leaving_table, driving, step, moves,
  exits, progress, process_step, progress-exits,
}
use operating_systems_course.Common.Crowd.{moved, crowd, crowd_positive}
use operating_systems_course.Pizzeria.System.{System, forked, pick, Reach, begin, next}
use operating_systems_course.Pizzeria.Counts.{
  in_oven, at_tables, bakes, reserves, uncounted, holds_place, Counts,
}
use operating_systems_course.Pizzeria.Invariant.{Reach-Inv}

abbrev is_supplier : Pc → Bool
is_supplier waiting = true
is_supplier fetching = true
is_supplier picking = true
is_supplier (picked _) = true
is_supplier (leaving_table _) = true
is_supplier (driving _) = true
is_supplier _ = false

-- No step turns a cook into a supplier.
step-role :
    (random : ℕ) (k k' : Kitchen) (p p' : Pc)
    → step random k p ≡ some (k', p')
    → is_supplier p' ≡ is_supplier p
unfolding step
step-role random k k' preparing p' e = ground arith
step-role random k k' p p' e = ground arith

moved-role :
    (f : ℕ → Pc) (j i : ℕ) (p : Pc)
    → is_supplier p ≡ is_supplier (f j)
    → is_supplier (moved f j p i) ≡ is_supplier (f i)
moved-role f j i p h = elim (ℕ_discrete j i) [
  | yes here ↦ ground (arith, here, h)
  | no other ↦ ground (arith, other)
]

Reach-role :
    {cooks suppliers : ℕ} {s : System}
    → Reach cooks suppliers s
    → (i : ℕ) → is_supplier (s.pc i) ≡ is_supplier (forked cooks i)
Reach-role begin i = refl
Reach-role (next {s = s} r (pick j random {k} {p} lt e)) i =
    moved-role s.pc j i p (step-role random s.kitchen k (s.pc j) p e) ∙ Reach-role r i

-- The process can take its next step.
abbrev pub CanStep : Kitchen → Pc → Type 0
CanStep k p = step 0 k p ≢ none

-- Inside a critical section nothing blocks.
critical-CanStep : (k : Kitchen) (p : Pc) → 0 < in_oven p + at_tables p → CanStep k p
unfolding step
critical-CanStep k preparing h e = ground arith
critical-CanStep k p h e = ground arith

-- While both shelves are unlocked, a process that has a place or a pizza counted for it goes on.
engaged-CanStep :
    (k : Kitchen) (p : Pc)
    → 0 < k.oven_semaphore
    → 0 < k.table_semaphore
    → 0 < bakes p + reserves p + (uncounted p + holds_place p)
    → CanStep k p
unfolding step
engaged-CanStep k preparing o t h e = ground arith
engaged-CanStep k p o t h e = ground arith

-- So does a supplier while a pizza is announced, and a cook while there is room for one more.
supplier-CanStep :
    (k : Kitchen) (p : Pc)
    → 0 < k.table_semaphore
    → 0 < k.table_empty
    → is_supplier p ≡ true
    → CanStep k p
unfolding step
supplier-CanStep k preparing t h s e = ground arith
supplier-CanStep k p t h s e = ground arith

cook-CanStep :
    (k : Kitchen) (p : Pc)
    → 0 < k.oven_semaphore
    → 0 < k.table_semaphore
    → 0 < k.oven_full
    → 0 < k.table_full
    → is_supplier p ≡ false
    → CanStep k p
unfolding step
cook-CanStep k preparing o t f g s e = ground arith
cook-CanStep k p o t f g s e = ground arith

-- Some process can take a step.
abbrev pub Live : ℕ → System → Type 0
Live n s = (i : ℕ) × (i < n) × CanStep s.kitchen (s.pc i)

module _ (n : ℕ) (s : System) (c : Counts n s.kitchen s.pc) where
  Live-crowd :
      (weight : Pc → ℕ)
      → ((p : Pc) → 0 < weight p → CanStep s.kitchen p)
      → 0 < crowd weight n s.pc
      → Live n s
  Live-crowd weight go h = let (i, lt, w) = crowd_positive weight n s.pc h in (i, lt, go (s.pc i) w)

  oven_locked : s.kitchen.oven_semaphore ≡ 0 → Live n s
  oven_locked h =
      Live-crowd in_oven (λ p w. critical-CanStep s.kitchen p (omega arith))
        (omega (arith, c.oven_mutex))

  table_locked : s.kitchen.table_semaphore ≡ 0 → Live n s
  table_locked h =
      Live-crowd at_tables (λ p w. critical-CanStep s.kitchen p (omega arith))
        (omega (arith, c.table_mutex))

  module _ (o : 0 < s.kitchen.oven_semaphore) (t : 0 < s.kitchen.table_semaphore) where
    engaged :
        (weight : Pc → ℕ)
        → ((p : Pc) → 0 < weight p → 0 < bakes p + reserves p + (uncounted p + holds_place p))
        → 0 < crowd weight n s.pc
        → Live n s
    engaged weight part = Live-crowd weight (λ p w. engaged-CanStep s.kitchen p o t (part p w))

    -- No pizza is announced and the table has no place: somebody is on the way to or from it.
    table_stuck : s.kitchen.table_empty ≡ 0 → s.kitchen.table_full ≡ 0 → Live n s
    table_stuck e f = elim (dec_lt 0 (crowd uncounted n s.pc)) [
      | yes some_uncounted ↦ engaged uncounted (λ p w. omega arith) some_uncounted
      | no none_uncounted ↦
          engaged holds_place (λ p w. omega arith) (omega (arith, c.table_places, c.table_pizzas))
    ]

    oven_stuck : s.kitchen.oven_full ≡ 0 → Live n s
    oven_stuck f = elim (dec_lt 0 (crowd bakes n s.pc)) [
      | yes some_bake ↦ engaged bakes (λ p w. omega arith) some_bake
      | no none_bakes ↦
          engaged reserves (λ p w. omega arith) (omega (arith, c.oven_places, c.oven_pizzas))
    ]

-- In every state reached, one of the processes finds every semaphore it needs above 0.
reached-Live :
    {cooks suppliers : ℕ} {s : System}
    → 0 < cooks
    → 0 < suppliers
    → Reach cooks suppliers s
    → Live (cooks + suppliers) s
reached-Live {cooks} {suppliers} {s} some_cook some_supplier r =
    elim (dec_lt 0 s.kitchen.oven_semaphore) [
      | no locked ↦ oven_locked n s c (omega arith)
      | yes o ↦ elim (dec_lt 0 s.kitchen.table_semaphore) [
        | no locked ↦ table_locked n s c (omega arith)
        | yes t ↦ elim (dec_lt 0 s.kitchen.table_empty) [
          | yes announced ↦ (
            cooks,
            omega arith,
            supplier-CanStep s.kitchen (s.pc cooks) t announced
                (Reach-role r cooks ∙ role_of_supplier),
          )
          | no nothing ↦ elim (dec_lt 0 s.kitchen.table_full) [
            | no full ↦ table_stuck n s c o t (omega arith) (omega arith)
            | yes place ↦ elim (dec_lt 0 s.kitchen.oven_full) [
              | no full ↦ oven_stuck n s c o t (omega arith)
              | yes room ↦ (
                0,
                omega arith,
                cook-CanStep s.kitchen (s.pc 0) o t room place (Reach-role r 0 ∙ role_of_cook),
              )
            ]
          ]
        ]
      ]
    ]
  where
    n : ℕ
    n = cooks + suppliers

    c : Counts n s.kitchen s.pc
    c = (Reach-Inv r).counts

    role_of_supplier : is_supplier (forked cooks cooks) ≡ true
    role_of_supplier = ground arith

    role_of_cook : is_supplier (forked cooks 0) ≡ false
    role_of_cook = ground (arith, some_cook)

-- One of the processes goes on, and none of them exits.
pub record Lively (nowait : Bool) (n : ℕ) (s : System) : Type 0 where
  pub who : ℕ
  pub one_of : who < n
  pub kitchen : Kitchen
  pub stands : Pc
  pub goes_on : process_step nowait 0 s.kitchen (s.pc who) ≡ moves kitchen stands
  pub none_exits : (i random : ℕ) → i < n → process_step nowait random s.kitchen (s.pc i) ≢ exits

-- With at least one cook and one supplier, and if sem_flg, which the code does not set, happens not
-- to have IPC_NOWAIT, and semop fails for no other reason: in every state reached one of the
-- processes can take a step, and none of them exits at a semaphore.
pub no_deadlock :
    {nowait : Bool} {cooks suppliers : ℕ} {s : System}
    → nowait ≡ false
    → 0 < cooks
    → 0 < suppliers
    → Reach cooks suppliers s
    → Lively nowait (cooks + suppliers) s
unfolding process_step
no_deadlock {nowait} {s = s} blocks some_cook some_supplier r =
    let (i, lt, can) = reached-Live some_cook some_supplier r in
    let ((k, p), taken) = can_step (step 0 s.kitchen (s.pc i)) can in
    record {
      who = i;
      one_of = lt;
      kitchen = k;
      stands = p;
      goes_on = ap (progress nowait) taken;
      none_exits = λ j random lt'. progress-exits nowait (step random s.kitchen (s.pc j)) blocks;
    }
  where
    can_step : (o : Option (Kitchen × Pc)) → o ≢ none → (r : Kitchen × Pc) × (o ≡ some r)
    can_step none ne = absurd (ne refl)
    can_step (some r) ne = (r, refl)
