-- ===== src/Agents/Versions.antt =====
-- A rollback gets a version number that was never published, and of two updates that were prepared
-- from the same version one is refused.
use general_agent_platform.Base.{
  ℕ, ◌+◌, ◌≤◌, ◌≡◌, refl, ap, ◌∙◌, sym, subst, if◌then◌else◌, precondition_failed, err, String,
  Bool, true, false, not, ◌&&◌, ◌||◌, some, List, [], ◌∷◌, ◌++◌, arith, ◌==◌, ==-refl, leb, find,
  update_where, any, all, all-append, is_none, Option-cases, Bool-cases, inl, inr, ok,
}
use general_agent_platform.Json.{Fields}
use mathlib.Core.Option
use general_agent_platform.Principal.{Principal, is_admin}
use general_agent_platform.Db.Rows.{find-update_kept}
use general_agent_platform.Agents.{
  Agent, AgentVersion, Registry, AgentUpdate, live_agent, version_of, updated, update_agent,
  rollback_agent, rolled_back, roll_back, write_agent, IfMatch, is_match, is_blank,
}

-- No agent with the version's key is behind the version.
abbrev pub covers : List Agent → AgentVersion → Bool
covers agents v = all (λ (a : Agent). not (a.id == v.agent_id) || leb v.version a.version) agents

abbrev pub is_versioned : Registry → Bool
is_versioned db = all (covers db.agents) db.versions

covers-found :
    (q : Agent → Bool) (agents : List Agent) (a : Agent) (v : AgentVersion)
    → find q agents ≡ some a
    → covers agents v ≡ true
    → a.id ≡ v.agent_id
    → v.version ≤ a.version
covers-found q [] a v h c same = ground arith
covers-found q (b ∷ agents) a v h c same =
    ground (arith, covers-found q agents a v, ==-refl v.agent_id)

-- No version of the agent has a number above that of the agent.
all_covered-fresh :
    (q : Agent → Bool) (agents : List Agent) (a : Agent) (versions : List AgentVersion)
    → find q agents ≡ some a
    → all (covers agents) versions ≡ true
    → any (λ (v : AgentVersion). v.agent_id == a.id && v.version == a.version + 1) versions ≡ false
all_covered-fresh q agents a [] h c = refl
all_covered-fresh q agents a (v ∷ versions) h c =
    ground (arith, covers-found q agents a v h, all_covered-fresh q agents a versions h)

-- Raising the agents of a key to a number keeps what is not above it.
covers-raise :
    (k n : ℕ) (f : Agent → Agent) (agents : List Agent) (v : AgentVersion)
    → ((a : Agent) → ((f a).id ≡ a.id) × ((f a).version ≡ n))
    → (v.agent_id ≡ k → v.version ≤ n)
    → covers agents v ≡ true
    → covers (update_where (λ (a : Agent). a.id == k) f agents) v ≡ true
covers-raise k n f [] v raises low c = refl
covers-raise k n f (a ∷ agents) v raises low c =
    ground (arith, raises a, low, covers-raise k n f agents v raises low)

all-covers-raise :
    (k n : ℕ) (f : Agent → Agent) (agents : List Agent) (versions : List AgentVersion)
    → ((a : Agent) → ((f a).id ≡ a.id) × ((f a).version ≡ n))
    → ((v : AgentVersion) → covers agents v ≡ true → v.agent_id ≡ k → v.version ≤ n)
    → all (covers agents) versions ≡ true
    → all (covers (update_where (λ (a : Agent). a.id == k) f agents)) versions ≡ true
all-covers-raise k n f agents [] raises low c = refl
all-covers-raise k n f agents (v ∷ versions) raises low c = ground (
  arith,
  covers-raise k n f agents v raises (low v (ground (arith, c))),
  all-covers-raise k n f agents versions raises low,
)

-- The agents of a key that have all been raised to a number do not fall behind it.
covers-raised :
    (n : ℕ) (f : Agent → Agent) (agents : List Agent) (v : AgentVersion)
    → ((a : Agent) → ((f a).id ≡ a.id) × ((f a).version ≡ n))
    → v.version ≡ n
    → covers (update_where (λ (a : Agent). a.id == v.agent_id) f agents) v ≡ true
covers-raised n f [] v raises same = refl
covers-raised n f (a ∷ agents) v raises same =
    ground (arith, raises a, covers-raised n f agents v raises same)

-- What a write that raises a live agent by one keeps.
raise-is_versioned :
    (p : Principal) (k : ℕ) (a : Agent) (f : Agent → Agent) (db : Registry)
    → is_versioned db ≡ true
    → live_agent p k db ≡ some a
    → ((b : Agent) → ((f b).id ≡ b.id) × ((f b).version ≡ a.version + 1))
    → is_versioned (write_agent a.id f db) ≡ true
raise-is_versioned p k a f db c h raises =
    all-covers-raise a.id (a.version + 1) f db.agents db.versions raises
      (λ v covered same. ground (
        arith,
        covers-found
            (λ (b : Agent). b.id == k && b.tenant_id == p.tenant_id && is_none b.deleted_at)
            db.agents a v h covered (sym same),
      ))
      c

-- What a rollback promises of its version and registry.
abbrev pub IsFresh : Registry → AgentVersion → Registry → Type 0
IsFresh db v db' =
    (any (λ (w : AgentVersion). w.agent_id == v.agent_id && w.version == v.version) db.versions
      ≡ false)
    × (db'.versions ≡ db.versions ++ v ∷ [])
    × (is_versioned db' ≡ true)

roll_back-IsFresh :
    (digest : Fields → String) (p : Principal) (k : ℕ) (a : Agent) (target : AgentVersion)
    (db : Registry)
    → is_versioned db ≡ true
    → live_agent p k db ≡ some a
    → let (v, db') = roll_back digest p a target db in IsFresh db v db'
roll_back-IsFresh digest p k a target db c h =
    let f = rolled_back digest p a target in
    let v = (roll_back digest p a target db).0 in
    let agents = (write_agent a.id f db).agents in
    (
      all_covered-fresh
          (λ (b : Agent). b.id == k && b.tenant_id == p.tenant_id && is_none b.deleted_at) db.agents
          a db.versions h c,
      refl,
      ground (
        arith,
        all-append (covers agents) db.versions (v ∷ []),
        raise-is_versioned p k a f db c h (λ b. (refl, refl)),
        covers-raised (a.version + 1) f db.agents v (λ b. (refl, refl)) refl,
      ),
    )

-- If no version is ahead of its agent, a rollback publishes a version whose number the agent never
-- had, so that the unique constraint on agent and version holds; it keeps every version that was
-- published; and again no version is ahead of its agent.
pub rollback_agent-IsFresh :
    (digest : Fields → String) (p : Principal) (k n : ℕ) (db : Registry) (v : AgentVersion)
    → is_versioned db ≡ true
    → let (reply, db') = rollback_agent digest p k n db in reply ≡ ok v → IsFresh db v db'
unfolding rollback_agent
rollback_agent-IsFresh digest p k n db v c h = elim (Option-cases (live_agent p k db)) [
  | inl absent ↦ ground (arith, h, absent)
  | inr (a, found) ↦ elim (Option-cases (version_of p k n db)) [
    | inl no_version ↦ ground (arith, h, found, no_version)
    | inr (target, there) ↦
        let (w, db') = roll_back digest p a target db in
        let same : w ≡ v = ground (arith, h, found, there) in
        let after : db' ≡ (rollback_agent digest p k n db).1 = ground (arith, h, found, there) in
        subst (λ u. IsFresh db u (rollback_agent digest p k n db).1) same
          (subst (IsFresh db w) after (roll_back-IsFresh digest p k a target db c found))
  ]
]

-- The agent that a request names, after an update of it.
live_agent-updated :
    (p p' : Principal) (k : ℕ) (payload : AgentUpdate) (a : Agent) (db : Registry)
    → p'.tenant_id ≡ p.tenant_id
    → live_agent p k db ≡ some a
    → live_agent p' k (write_agent a.id (updated p payload a.version) db)
      ≡ some (updated p payload a.version a)
live_agent-updated p p' k payload a db same found =
    let named = λ (b : Agent). b.id == k && b.tenant_id == p'.tenant_id && is_none b.deleted_at in
    let write = updated p payload a.version in
    let mine : live_agent p' k db ≡ some a = rw same found in
    find-update_kept (λ (b : Agent). b.id == a.id) write named db.agents
      (λ b. elim (Bool-cases (b.id == a.id)) [
        | inl here ↦ rw here refl
        | inr other ↦ rw other refl
      ])
    ∙ ap (λ o. Option.map (λ (b : Agent). if b.id == a.id then write b else b) o) mine
    ∙ ap (λ t. some (if t then write a else a)) (==-refl a.id)

-- Two updates of an agent do not overwrite each other: once an update is accepted, another one that
-- was prepared from the same version, so with the same `If-Match`, is refused with
-- PRECONDITION_FAILED on the registry that the first one left, and changes nothing, whichever
-- administrator of the tenant sends it.
pub update_agent_once :
    (p p' : Principal) (k : ℕ) (payload payload' : AgentUpdate) (if_match : IfMatch) (a : Agent)
    (db db' : Registry)
    → p'.tenant_id ≡ p.tenant_id
    → is_admin p'.role ≡ true
    → update_agent p k payload if_match db ≡ (ok a, db')
    → update_agent p' k payload' if_match db' ≡ (err precondition_failed, db')
unfolding update_agent
update_agent_once p p' k payload payload' if_match a db db' same admin done =
    elim (Option-cases (live_agent p k db)) [
      | inl absent ↦ ground (arith, done, absent)
      | inr (old, found) ↦
          let later = live_agent-updated p p' k payload old db same found in
          let written : db' ≡ write_agent old.id (updated p payload old.version) db =
            ground (arith, done, found) in
          let sent : is_blank if_match ≡ false = ground (arith, done, found) in
          let matched : is_match if_match old.version ≡ true = ground (arith, done, found) in
          let stale : is_match if_match (old.version + 1) ≡ false = ground (arith, matched) in
          subst (λ d. update_agent p' k payload' if_match d ≡ (err precondition_failed, d))
            (sym written) (rw (later, admin, sent, stale, update_agent) refl)
    ]
