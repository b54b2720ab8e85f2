-- ===== src/Approvals/Guards.antt =====
-- What a decision of an approval asks for, and who loses a race for it.
use general_agent_platform.Base.{
  ℕ, ◌≡◌, refl, sym, subst, String, true, false, ◌&&◌, Option, some, List, [], ◌∷◌, arith, ◌==◌,
  leb, select, update_where, find, find_holds, any, Bool-cases, inl, inr, Option-cases, ok, err,
  approval_already_handled,
}
use general_agent_platform.Principal.{Principal, is_admin}
use general_agent_platform.Db.{Db, Approval, expired}
use general_agent_platform.Runs.Endpoints.{Reply}
use general_agent_platform.Approvals.{
  Decision, Examined, is_unused, is_token, examine_token, examine, consumable, decide_examined,
  decide_reply, decide_approval, is_due, expire_late,
}
use general_agent_platform.Approvals.Once.{is_ok, is_open, examine-same}

module _ (sha256 : String → String) (p : Principal) (k : ℕ) (decision : Decision) where
  -- An approval of the tenant that may be decided now, with the token that the request carries.
  abbrev pub IsDecidable : Db → Type 0
  IsDecidable db =
      (a : Approval) × (find (λ (b : Approval). b.id == k && b.tenant_id == p.tenant_id)
          db.approvals
        ≡ some a)
      × (is_unused a ≡ true)
      × (leb a.expires_at db.now ≡ false)
      × (is_token sha256 decision.token a.token_hash ≡ true)

  examine_token-token :
      (a : Approval) (db : Db)
      → is_ok (examine_token sha256 p decision a db) ≡ true
      → is_token sha256 decision.token a.token_hash ≡ true
  unfolding examine_token
  examine_token-token a db h = ground (arith, h)

  examine-ok :
      (db : Db)
      → is_ok (examine sha256 p k decision db).0 ≡ true
      → (is_admin p.role ≡ true) × IsDecidable db
  unfolding examine
  examine-ok db h =
      elim (Option-cases
        (find (λ (a : Approval). a.id == k && a.tenant_id == p.tenant_id) db.approvals)) [
          | inl absent ↦ ground (arith, h, absent)
          | inr (a, found) ↦
              let facts : (is_admin p.role ≡ true)
                  × (is_unused a ≡ true)
                  × (leb a.expires_at db.now ≡ false)
                  × (is_ok (examine_token sha256 p decision a db) ≡ true) =
                ground (arith, h, found) in
              let (admin, unused, alive, checked) = facts in
              (admin, (a, found, unused, alive, examine_token-token a db checked))
        ]

  -- No row is left for the update of a decision, once the approval is not open.
  closed_select :
      (now : ℕ) (rows : List Approval)
      → is_open k rows ≡ false
      → select (consumable p k now) rows ≡ []
  closed_select now [] h = refl
  closed_select now (b ∷ rows) h = ground (arith, closed_select now rows)

  decide_reply-ok :
      (meanwhile : Db → Db) (reply : Reply Examined)
      → is_ok (decide_reply p k decision meanwhile reply).0 ≡ true
      → (is_ok reply.0 ≡ true) × (is_open k (meanwhile reply.1).approvals ≡ true)
  unfolding decide_reply decide_examined
  decide_reply-ok meanwhile (err e, db) h = cc
  decide_reply-ok meanwhile (ok e, db) h = elim (Bool-cases (is_open k (meanwhile db).approvals)) [
    | inl still ↦ (refl, still)
    | inr closed ↦
        ground (arith, h, closed_select (meanwhile db).now (meanwhile db).approvals closed)
  ]

-- A decision that is taken was asked for by an administrator. It is for an approval of the
-- administrator's tenant that was pending, unused and not past its time when it was read, with the
-- token of the approval, if that has one; and the approval was still open when the update met it,
-- whatever other sessions did in between.
pub decide_approval_guarded :
    (sha256 : String → String) (p : Principal) (k : ℕ) (decision : Decision) (meanwhile : Db → Db)
    (db : Db)
    → is_ok (decide_approval sha256 p k decision meanwhile db).0 ≡ true
    → (is_admin p.role ≡ true)
      × IsDecidable sha256 p k decision db
      × (is_open k (meanwhile db).approvals ≡ true)
unfolding decide_approval
decide_approval_guarded sha256 p k decision meanwhile db h =
    let reply = examine sha256 p k decision db in
    let (passed, still) = decide_reply-ok sha256 p k decision meanwhile reply h in
    let (admin, decidable) = examine-ok sha256 p k decision db passed in
    (
      admin,
      decidable,
      subst (λ d. is_open k (meanwhile d).approvals ≡ true)
          (examine-same sha256 p k decision db passed) still,
    )

-- No row with the key is due, at any time, after the expiry that a late decision writes.
expire_late-unswept :
    (k now : ℕ) (tenant : Option ℕ) (t : ℕ) (rows : List Approval)
    → any
        (λ (b : Approval). b.id == k && is_due tenant now b)
        (update_where
          (λ (b : Approval). b.id == k)
          (λ (b : Approval). record b { status = expired; used_at = some t })
          rows)
      ≡ false
expire_late-unswept k now tenant t [] = refl
expire_late-unswept k now tenant t (b ∷ rows) =
    ground (arith, expire_late-unswept k now tenant t rows)

decide_approval-late :
    (sha256 : String → String) (p : Principal) (k : ℕ) (decision : Decision) (meanwhile : Db → Db)
    (db : Db) (a : Approval)
    → is_admin p.role ≡ true
    → find (λ (b : Approval). b.id == k && b.tenant_id == p.tenant_id) db.approvals ≡ some a
    → is_unused a ≡ true
    → leb a.expires_at db.now ≡ true
    → decide_approval sha256 p k decision meanwhile db
      ≡ (err approval_already_handled, expire_late sha256 a db)
unfolding decide_approval decide_reply examine
decide_approval-late sha256 p k decision meanwhile db a admin found unused late =
    ground (arith, admin, found, unused, late)

-- An administrator's decision of an approval past its time is refused, and leaves every run and
-- every tool call as it is, also the run and the call that wait for this approval. The approval is
-- expired by it, and so no later sweep takes it up, whenever it runs.
pub late_decision_strands :
    (sha256 : String → String) (p : Principal) (k : ℕ) (decision : Decision) (meanwhile : Db → Db)
    (db : Db) (a : Approval)
    → is_admin p.role ≡ true
    → find (λ (b : Approval). b.id == k && b.tenant_id == p.tenant_id) db.approvals ≡ some a
    → is_unused a ≡ true
    → leb a.expires_at db.now ≡ true
    → let (reply, db') = decide_approval sha256 p k decision meanwhile db in
      (reply ≡ err approval_already_handled)
      × (db'.runs ≡ db.runs)
      × (db'.calls ≡ db.calls)
      × ((tenant : Option ℕ) (now : ℕ)
          → any (λ (b : Approval). b.id == k && is_due tenant now b) db'.approvals ≡ false)
late_decision_strands sha256 p k decision meanwhile db a admin found unused late =
    let same : a.id ≡ k = ground (
      arith,
      find_holds (λ (b : Approval). b.id == k && b.tenant_id == p.tenant_id) db.approvals a found,
    ) in
    rw (decide_approval-late sha256 p k decision meanwhile db a admin found unused late) (
      refl,
      refl,
      refl,
      λ tenant now.
          subst
            (λ j.
              any (λ (b : Approval). b.id == k && is_due tenant now b)
                (update_where (λ (b : Approval). b.id == j)
                  (λ (b : Approval). record b { status = expired; used_at = some db.now })
                  db.approvals)
              ≡ false)
            (sym same) (expire_late-unswept k now tenant db.now db.approvals),
    )
