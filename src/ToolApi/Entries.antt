-- ===== src/ToolApi/Entries.antt =====
-- The histories of tools: how the rows of the versions (app/main.py) stand for lists of contents.
use general_agent_platform.Base.{
  ℕ, suc, ◌+◌, ◌≡◌, refl, ◌&&◌, Option, none, some, List, [], ◌∷◌, ◌++◌, arith, ◌==◌, ==-refl,
  if◌then◌else◌, find, length, Result, ok, err,
}
use mathlib.Core.Option
use general_agent_platform.Db.Rows.{UniqueKeys}
use general_agent_platform.ToolApi.{Contents, Tool, ToolVersion, Catalog}

-- The history of a tool, with its tenant and the number of each entry, as the rows have it.
abbrev pub Entry : Type 0
Entry = ℕ × ℕ × Contents

abbrev pub history : ℕ → List ToolVersion → List Entry
history k [] = []
history k (v ∷ rest) =
    let later = history k rest in
    if v.tool_definition_id == k then (v.tenant_id, v.version, v.contents) ∷ later else later

-- The entries of a history, numbered from `i`.
abbrev pub numbered : ℕ → ℕ → List Contents → List Entry
numbered tenant i [] = []
numbered tenant i (c ∷ h) = (tenant, i, c) ∷ numbered tenant (suc i) h

-- The entry with a number, in a history that is numbered from `i`.
abbrev pub entry_from : ℕ → ℕ → List Contents → Option Contents
entry_from i n [] = none
entry_from i n (c ∷ h) = if i == n then some c else entry_from (suc i) n h

abbrev pub newest_of : List Contents → Option Contents
newest_of [] = none
newest_of (c ∷ h) = elim (newest_of h) [ none ↦ some c | some d ↦ some d ]

pub history-append :
    (k : ℕ) (rows : List ToolVersion) (v : ToolVersion)
    → v.tool_definition_id ≡ k
    → history k (rows ++ v ∷ []) ≡ history k rows ++ (v.tenant_id, v.version, v.contents) ∷ []
history-append k [] v own = ground (arith, own, ==-refl k)
history-append k (w ∷ rows) v own = ground (arith, history-append k rows v own)

pub numbered-append :
    (tenant i : ℕ) (h : List Contents) (c : Contents)
    → numbered tenant i (h ++ c ∷ []) ≡ numbered tenant i h ++ (tenant, i + length h, c) ∷ []
numbered-append tenant i [] c = ground arith
numbered-append tenant i (d ∷ h) c = ground (arith, numbered-append tenant (suc i) h c)

pub newest_of-append : (h : List Contents) (c : Contents) → newest_of (h ++ c ∷ []) ≡ some c
newest_of-append [] c = refl
newest_of-append (d ∷ h) c = ground (arith, newest_of-append h c)

-- The contents of the entry of a tenant with a number.
abbrev pub lookup : ℕ → ℕ → List Entry → Option Contents
lookup tenant n [] = none
lookup tenant n ((t, m, c) ∷ rest) = if t == tenant && m == n then some c else lookup tenant n rest

pub lookup-numbered :
    (tenant i n : ℕ) (h : List Contents) → lookup tenant n (numbered tenant i h) ≡ entry_from i n h
lookup-numbered tenant i n [] = refl
lookup-numbered tenant i n (c ∷ h) =
    ground (arith, ==-refl tenant, lookup-numbered tenant (suc i) n h)

pub lookup-history :
    (k tenant n : ℕ) (rows : List ToolVersion)
    → Option.map
        (λ (v : ToolVersion). v.contents)
        (find
          (λ (v : ToolVersion).
            v.tool_definition_id == k && v.tenant_id == tenant && v.version == n)
          rows)
      ≡ lookup tenant n (history k rows)
lookup-history k tenant n [] = refl
lookup-history k tenant n (v ∷ rows) = ground (arith, lookup-history k tenant n rows)

abbrev pub tool_key : Tool → ℕ
tool_key t = t.id

-- The tables stand for this history of the tool: the versions are its entries in order, the tool has
-- the contents of the newest one, and its version counts them.
abbrev pub Tracks : Catalog → ℕ → List Contents → Type 0
Tracks catalog k h =
    UniqueKeys tool_key catalog.tools
    × ((t : Tool) × (find (λ (x : Tool). x.id == k) catalog.tools ≡ some t)
        × (t.version ≡ length h)
        × (newest_of h ≡ some t.contents)
        × (history k catalog.versions ≡ numbered t.tenant_id 1 h))

-- The history after a request: a change that is accepted is its newest entry.
abbrev pub extended : Result Tool → List Contents → List Contents
extended (ok t) h = h ++ t.contents ∷ []
extended (err e) h = h
