-- ===== src/Game/Server/Remove.antt =====
-- `remove_client` of cw10/zad1/server.c: who leaves, and what a name that nobody has leads to.
use operating_systems_course.Common.{
  ℕ, ◌<◌, ◌≡◌, refl, sym, ◌∙◌, ◌≢◌, inl, inr, Option, none, some, arith, get_elem?, set,
  get_elem?-lt, get_elem?-some, get_elem?-set_self, get_elem?-set_ne, length, length-set,
}
use operating_systems_course.Common.Bytes.{Bytes}
use operating_systems_course.Game.Server.{
  Player, last_named, get_opponent, Server, vacate, remove_client, remove_at, drop_opponent,
}
use operating_systems_course.Game.Server.Search.{Named, last_named-Found, last_named-none}
use operating_systems_course.Game.Server.Table.{IsServer, vacate-IsServer, get_opponent-lt}

-- The table behind a removal at slot `i`: both seats of the pair are free, the others as before.
pub record Removed (s : Server) (i : ℕ) (s' : Server) : Type 0 where
  pub valid : IsServer s'
  pub gone : get_elem? s'.clients i ≡ some none
  pub opponent_gone : get_elem? s'.clients (get_opponent i) ≡ some none
  pub others : (j : ℕ) → j ≢ i → j ≢ get_opponent i → get_elem? s'.clients j ≡ get_elem? s.clients j
  pub silent : (s'.sent ≡ s.sent) × (s'.closed ≡ s.closed)

opponent_ne : (i : ℕ) → get_opponent i ≢ i
opponent_ne i h = ground arith

module _ (i : ℕ) (p : Player) (s : Server) (v : IsServer s)
    (taken : get_elem? s.clients i ≡ some (some p)) where
  opponent_in : get_opponent i < length s.clients
  opponent_in = rw (v.twenty) (get_opponent-lt i (rw v.twenty at (get_elem?-lt s.clients i taken)))

  -- The opponent's slot is free already.
  alone :
      get_elem? s.clients (get_opponent i) ≡ some none
      → (remove_at (some i) s ≡ some (vacate i s)) × Removed s i (vacate i s)
  unfolding remove_at
  alone free =
      let kept =
        get_elem?-set_ne s.clients {i = i} {j = get_opponent i} none (λ e. opponent_ne i (sym e))
        ∙ free in
      (
        rw (kept, drop_opponent) refl,
        record {
          valid = vacate-IsServer i p s v taken;
          gone = get_elem?-set_self s.clients i none (get_elem?-lt s.clients i taken);
          opponent_gone = kept;
          others = λ j ne ne'. get_elem?-set_ne s.clients {i = i} {j = j} none (λ e. ne (sym e));
          silent = (refl, refl);
        },
      )

  -- The opponent leaves too.
  together :
      (q : Player)
      → get_elem? s.clients (get_opponent i) ≡ some (some q)
      → let s' = vacate (get_opponent i) (vacate i s) in
        (remove_at (some i) s ≡ some s') × Removed s i s'
  unfolding remove_at
  together q there =
      let kept =
        get_elem?-set_ne s.clients {i = i} {j = get_opponent i} none (λ e. opponent_ne i (sym e))
        ∙ there in
      (
        rw (kept, drop_opponent) refl,
        record {
          valid =
              vacate-IsServer (get_opponent i) q (vacate i s) (vacate-IsServer i p s v taken) kept;
          gone =
              get_elem?-set_ne (set s.clients i none) {i = get_opponent i} {j = i} none
                (opponent_ne i)
              ∙ get_elem?-set_self s.clients i none (get_elem?-lt s.clients i taken);
          opponent_gone =
              get_elem?-set_self (set s.clients i none) (get_opponent i) none
                (rw (length-set s.clients i none) opponent_in);
          others = λ j ne ne'.
              get_elem?-set_ne (set s.clients i none) {i = get_opponent i} {j = j} none
                (λ e. ne' (sym e))
              ∙ get_elem?-set_ne s.clients {i = i} {j = j} none (λ e. ne (sym e));
          silent = (refl, refl);
        },
      )

  pub remove_at-Removed : (s' : Server) × (remove_at (some i) s ≡ some s') × Removed s i s'
  remove_at-Removed =
      let (o, there) = get_elem?-some s.clients (get_opponent i) opponent_in in by_opponent o there
    where
      by_opponent :
          (o : Option Player)
          → get_elem? s.clients (get_opponent i) ≡ some o
          → (s' : Server) × (remove_at (some i) s ≡ some s') × Removed s i s'
      by_opponent none free = (_, (alone free).0, (alone free).1)
      by_opponent (some q) there = (_, (together q there).0, (together q there).1)

-- Removing a player by name frees the seats of the whole pair, and no other, and keeps the table
-- valid.
pub remove_client-Removed :
    (name : Bytes) (i : ℕ) (s : Server)
    → IsServer s
    → Named name s.clients i
    → (s' : Server) × (remove_client name s ≡ some s') × Removed s i s'
unfolding remove_client
remove_client-Removed name i s v (p, at, is_name) = by_index (last_named name 0 none s.clients) refl
  where
    by_index :
        (o : Option ℕ)
        → last_named name 0 none s.clients ≡ o
        → (s' : Server) × (remove_at o s ≡ some s') × Removed s i s'
    by_index none e = absurd ((last_named-none name 0 none s.clients e).1 i (p, at, is_name))
    by_index (some k) e = elim (last_named-Found name 0 none s.clients e) [
      | inl before ↦ ground arith
      | inr (j, far, (q, there, is_name')) ↦
          let same : k ≡ i =
            omega (arith, far, v.distinct j i q p there at (is_name' ∙ sym is_name)) in
          rw same (remove_at-Removed i p s v at)
    ]

-- Removing a name that no player has is undefined: C follows `clients[-1]`.
pub remove_client-none :
    (name : Bytes) (s : Server)
    → ((j : ℕ) → ¬ (Named name s.clients j))
    → remove_client name s ≡ none
unfolding remove_client
remove_client-none name s absent = by_index (last_named name 0 none s.clients) refl
  where
    by_index : (o : Option ℕ) → last_named name 0 none s.clients ≡ o → remove_at o s ≡ none
    by_index none e = unfold remove_at in refl
    by_index (some k) e = elim (last_named-Found name 0 none s.clients e) [
      | inl before ↦ ground arith
      | inr (j, far, named) ↦ absurd (absent j named)
    ]
