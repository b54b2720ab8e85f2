-- ===== src/ToolApi/History.antt =====
-- What the tables of tools and versions (app/main.py) stand for: each tool has a history of contents.
-- An update appends to it, and a rollback appends an old entry again.
use general_agent_platform.Base.{
  ℕ, ◌+◌, ◌≡◌, refl, sym, ap, ◌∙◌, ◌&&◌, Option, none, some, List, [], ◌∷◌, ◌++◌, arith, ◌==◌,
  ==-refl, find, find_holds, if_holds, conflict, length, length-append, Result, ok, err, ◌>>◌,
  Bool-cases, Option-cases, inl, inr, version_not_found,
}
use mathlib.Core.Option
use general_agent_platform.Principal.{Principal, is_admin}
use general_agent_platform.Db.Rows.{UniqueKeys-update, find-update_where, find_of_find-and}
use general_agent_platform.Agents.{IfMatch}
use general_agent_platform.SkillSdk.{Checks, validate_tool_schemas}
use general_agent_platform.ToolApi.{
  Contents, Tool, ToolVersion, Catalog, ToolUpdate, snapshot_tool, clashes, commit_tool, write_tool,
  live_tool, check_match, with_tool, raised_or, updated_contents, commit_next, update_tool,
  version_row, rollback_tool, or_old,
}
use general_agent_platform.ToolApi.Entries.{
  history, numbered, entry_from, newest_of, history-append, numbered-append, newest_of-append,
  lookup, lookup-numbered, lookup-history, tool_key, Tracks, extended,
}

-- What a request asks of a tool.
pub data Change : Type 0 where
  update : ToolUpdate → Change
  rollback : ℕ → Change

module _ (checks : Checks) where
  unfoldable pub serve_change : Principal → ℕ → Change → IfMatch → Catalog → Result Tool × Catalog
  unfolding update_tool rollback_tool
  serve_change p k (update payload) if_match catalog =
      update_tool checks p k payload if_match catalog
  serve_change p k (rollback n) if_match catalog = rollback_tool checks p k n if_match catalog

  -- The new entry: the updated columns over the newest entry, or the entry of the version that was
  -- asked for.
  abbrev pub IsEntryOf : Change → List Contents → Contents → Type 0
  IsEntryOf (update payload) h c =
      (old : Contents) × (newest_of h ≡ some old) × (c ≡ updated_contents checks payload old)
  IsEntryOf (rollback n) h c = entry_from 1 n h ≡ some c

  abbrev pub IsAnswer : Change → List Contents → Result Tool → Type 0
  IsAnswer change h (ok t) = IsEntryOf change h t.contents
  IsAnswer change h (err e) = Unit

  -- The reply and the tables after a change of the tool, where the history was `h`.
  abbrev Refines : ℕ → Change → List Contents → Result Tool × Catalog → Type 0
  Refines k change h (reply, catalog) =
      Tracks catalog k (extended reply h) × IsAnswer change h reply

  commit_next-Refines :
      (p : Principal) (k : ℕ) (tool : Tool) (c : Contents) (change : Change) (h : List Contents)
      (catalog : Catalog)
      → Tracks catalog k h
      → find (λ (x : Tool). x.id == k) catalog.tools ≡ some tool
      → IsEntryOf change h c
      → Refines k change h (commit_next checks p tool c catalog)
  unfolding commit_next commit_tool
  commit_next-Refines p k tool c change h catalog (u, (t, found, count, newest, entries)) here
        entry =
      let next = record tool { version = tool.version + 1; contents = c } in
      let same : t ≡ tool = ground arith in
      let own : tool.id ≡ k =
        ground (arith, find_holds (λ (x : Tool). x.id == k) catalog.tools tool here) in
      let write = λ (x : Tool). record x {
        version = next.version;
        contents = next.contents;
        is_active = next.is_active;
      } in
      let row = find-update_where tool_key write (λ x. refl) k next.id catalog.tools in
      let written = record (write_tool next catalog) {
        versions = catalog.versions ++ snapshot_tool next p.user_id ∷ [];
      } in
      let number : next.version ≡ 1 + length h = ground (arith, count, same) in
      let appended : history k written.versions ≡ numbered next.tenant_id 1 (h ++ c ∷ []) =
        history-append k catalog.versions (snapshot_tool next p.user_id) own
        ∙ ap (λ es. es ++ (next.tenant_id, next.version, c) ∷ [])
            (entries ∙ ap (λ x. numbered x.tenant_id 1 h) same)
        ∙ ap (λ n. numbered next.tenant_id 1 h ++ (next.tenant_id, n, c) ∷ []) number
        ∙ sym (numbered-append next.tenant_id 1 h c) in
      if_holds (λ s. Refines k change h s) (clashes next catalog) (err conflict, catalog)
        (ok next, written) ((u, (t, found, count, newest, entries)), tt)
        (
          (
            UniqueKeys-update tool_key (λ (x : Tool). x.id == next.id) write catalog.tools
                (λ x. refl) u,
            (
              next,
              ground (arith, row, own, here, ==-refl k),
              ground (arith, length-append h (c ∷ []), count, same),
              newest_of-append h c,
              appended,
            ),
          ),
          entry,
        )

  -- The tool that a request finds is the one that is tracked.
  with_tool-Refines :
      (p : Principal) (k : ℕ) (change : Change) (h : List Contents) (catalog : Catalog)
      (next : Tool → Result Tool × Catalog)
      → Tracks catalog k h
      → ((tool : Tool)
          → find (λ (x : Tool). x.id == k) catalog.tools ≡ some tool
          → tool.tenant_id ≡ p.tenant_id
          → Refines k change h (next tool))
      → Refines k change h (with_tool p k catalog next)
  with_tool-Refines p k change h catalog next tracks step = elim (Bool-cases (is_admin p.role)) [
    | inr not_admin ↦ rw (not_admin) (tracks, tt)
    | inl admin ↦ elim (Option-cases (live_tool p k catalog)) [
      | inl absent ↦ rw (admin, absent) (tracks, tt)
      | inr (tool, found) ↦
          let owned = λ (t : Tool). t.tenant_id == p.tenant_id && t.is_active in
          let here = find_of_find-and tool_key k owned catalog.tools tool tracks.0 found in
          let own : tool.tenant_id ≡ p.tenant_id = ground (
            arith,
            find_holds (λ (t : Tool). t.id == k && (t.tenant_id == p.tenant_id && t.is_active))
                catalog.tools tool found,
          ) in
          rw (admin, found) (step tool here own)
    ]
  ]

  raised_or-Refines :
      (k : ℕ) (change : Change) (h : List Contents) (catalog : Catalog) (test : Result (Unit {0}))
      (next : Unit {0} → Result Tool × Catalog)
      → Tracks catalog k h
      → Refines k change h (next tt)
      → Refines k change h (raised_or test catalog next)
  raised_or-Refines k change h catalog (ok passed) next tracks step = step
  raised_or-Refines k change h catalog (err e) next tracks step = (tracks, tt)

  update_tool-Refines :
      (p : Principal) (k : ℕ) (payload : ToolUpdate) (if_match : IfMatch) (h : List Contents)
      (catalog : Catalog)
      → Tracks catalog k h
      → Refines k (update payload) h (update_tool checks p k payload if_match catalog)
  unfolding update_tool
  update_tool-Refines p k payload if_match h catalog tracks =
      let (u, (t, found, count, newest, entries)) = tracks in
      with_tool-Refines p k (update payload) h catalog _ tracks (λ tool here own.
        let same : t ≡ tool = ground arith in
        raised_or-Refines k (update payload) h catalog
          (check_match if_match tool
            >> validate_tool_schemas checks (or_old payload.input_schema tool.contents.input_schema)
                (or_old payload.output_schema tool.contents.output_schema))
          (λ passed.
            commit_next checks p tool (updated_contents checks payload tool.contents) catalog)
          tracks
          (commit_next-Refines p k tool (updated_contents checks payload tool.contents)
            (update payload) h catalog tracks here
            (tool.contents, newest ∙ ap (λ x. some x.contents) same, refl)))

  rollback_found :
      (p : Principal) (k n : ℕ) (h : List Contents) (catalog : Catalog) (tool : Tool)
      → Tracks catalog k h
      → find (λ (x : Tool). x.id == k) catalog.tools ≡ some tool
      → tool.tenant_id ≡ p.tenant_id
      → Option.map (λ (v : ToolVersion). v.contents) (version_row checks p k n catalog)
        ≡ entry_from 1 n h
  rollback_found p k n h catalog tool (u, (t, found, count, newest, entries)) here own =
      let same : t ≡ tool = ground arith in
      lookup-history k p.tenant_id n catalog.versions
      ∙ ap (λ es. lookup p.tenant_id n es)
          (entries ∙ ap (λ a. numbered a 1 h) (ap (λ x. x.tenant_id) same ∙ own))
      ∙ lookup-numbered p.tenant_id 1 n h

  version-Refines :
      (p : Principal) (k n : ℕ) (h : List Contents) (catalog : Catalog) (tool : Tool)
      (target : Option ToolVersion)
      → Tracks catalog k h
      → find (λ (x : Tool). x.id == k) catalog.tools ≡ some tool
      → Option.map (λ (v : ToolVersion). v.contents) target ≡ entry_from 1 n h
      → Refines k (rollback n) h (elim target [
        | none ↦ (err version_not_found, catalog)
        | some v ↦ commit_next checks p tool v.contents catalog
      ])
  version-Refines p k n h catalog tool none tracks here entry = (tracks, tt)
  version-Refines p k n h catalog tool (some v) tracks here entry =
      commit_next-Refines p k tool v.contents (rollback n) h catalog tracks here (sym entry)

  rollback_tool-Refines :
      (p : Principal) (k n : ℕ) (if_match : IfMatch) (h : List Contents) (catalog : Catalog)
      → Tracks catalog k h
      → Refines k (rollback n) h (rollback_tool checks p k n if_match catalog)
  unfolding rollback_tool
  rollback_tool-Refines p k n if_match h catalog tracks =
      with_tool-Refines p k (rollback n) h catalog _ tracks (λ tool here own.
        raised_or-Refines k (rollback n) h catalog (check_match if_match tool) _ tracks (
          version-Refines p k n h catalog tool (version_row checks p k n catalog) tracks here
            (rollback_found p k n h catalog tool tracks here own)))

  pub serve_change-Refines :
      (p : Principal) (k : ℕ) (change : Change) (if_match : IfMatch) (h : List Contents)
      (catalog : Catalog)
      → Tracks catalog k h
      → Refines k change h (serve_change p k change if_match catalog)
  unfolding serve_change
  serve_change-Refines p k (update payload) if_match h catalog tracks =
      update_tool-Refines p k payload if_match h catalog tracks
  serve_change-Refines p k (rollback n) if_match h catalog tracks =
      rollback_tool-Refines p k n if_match h catalog tracks

-- The requests for one tool, in order: who makes them, the change, and the header.
abbrev pub Requests : Type 0
Requests = List (Principal × Change × IfMatch)

module _ (checks : Checks) (k : ℕ) where
  unfoldable pub serve_changes : Requests → Catalog → List (Result Tool) × Catalog
  unfolding serve_change
  serve_changes [] catalog = ([], catalog)
  serve_changes ((p, change, if_match) ∷ rest) catalog =
      let (reply, catalog') = serve_change checks p k change if_match catalog in
      let (replies, final) = serve_changes rest catalog' in (reply ∷ replies, final)

  -- The history after the replies.
  abbrev pub extended_all : List (Result Tool) → List Contents → List Contents
  extended_all [] h = h
  extended_all (reply ∷ rest) h = extended_all rest (extended reply h)

  -- Each reply is one to its change, at the history so far.
  abbrev pub AreAnswers : Requests → List (Result Tool) → List Contents → Type 0
  AreAnswers ((p, change, if_match) ∷ rest) (reply ∷ replies) h =
      IsAnswer checks change h reply × AreAnswers rest replies (extended reply h)
  AreAnswers [] [] h = Unit
  AreAnswers _ _ h = ⊥

-- The tables of tools and versions refine a list of contents: if they stand for a history of a tool,
-- then after any requests to update it and to roll it back, by anyone and with any headers, they
-- stand for that history with one new entry for each request that is accepted. The entry of an
-- update has the columns of the request over those of the newest entry, and that of a rollback is
-- the entry with the number that was asked for; a request that is refused leaves the history.
pub serve_changes_refines :
    (checks : Checks) (k : ℕ) (requests : Requests) (h : List Contents) (catalog : Catalog)
    → Tracks catalog k h
    → let (replies, final) = serve_changes checks k requests catalog in
      Tracks final k (extended_all checks k replies h) × AreAnswers checks k requests replies h
unfolding serve_changes
serve_changes_refines checks k [] h catalog tracks = (tracks, tt)
serve_changes_refines checks k ((p, change, if_match) ∷ rest) h catalog tracks =
    let (reply, catalog') = serve_change checks p k change if_match catalog in
    let (tracks', answer) = serve_change-Refines checks p k change if_match h catalog tracks in
    let (final, answers) =
      serve_changes_refines checks k rest (extended reply h) catalog' tracks' in
    (final, (answer, answers))
