-- ===== src/RateLimit/Window.antt =====
-- The bound of the limiter over a sequence of requests.
use general_agent_platform.Base.{
  ℕ, ◌+◌, ◌≤◌, ◌<◌, ◌≡◌, refl, sym, ◌∙◌, String, Bool, true, List, [], ◌∷◌, ◌++◌, arith, ltb, leb,
  if◌then◌else◌, length, select, length-append, length-select-le, all, Bool-cases, inl, inr,
}
use general_agent_platform.RateLimit.{drop_old, check_local}

-- What is still in the window at `current`.
abbrev pub is_recent : ℕ → ℕ → ℕ → Bool
is_recent window current t = ltb current (t + window)

abbrev pub recent : ℕ → ℕ → List ℕ → ℕ
recent window current times = length (select (is_recent window current) times)

module _ (window : ℕ) where
  -- Every time is at least `low`, and none is before an earlier one.
  abbrev pub IsSorted : ℕ → List ℕ → Type 0
  IsSorted low [] = Unit
  IsSorted low (t ∷ rest) = (low ≤ t) × IsSorted t rest

  all_recent :
      (current low : ℕ) (times : List ℕ)
      → IsSorted low times
      → current < low + window
      → recent window current times ≡ length times
  all_recent current low [] s h = refl
  all_recent current low (t ∷ rest) s h = ground (arith, all_recent current t rest s.1)

  -- Dropping from the front leaves what is recent, at this time and at any later one.
  drop_old-recent :
      (current later low : ℕ) (times : List ℕ)
      → IsSorted low times
      → current ≤ later
      → recent window later (drop_old window current times) ≡ recent window later times
  unfolding drop_old
  drop_old-recent current later low [] s h = refl
  drop_old-recent current later low (t ∷ rest) s h =
      ground (arith, drop_old-recent current later t rest s.1)

  drop_old-length :
      (current low : ℕ) (times : List ℕ)
      → IsSorted low times
      → length (drop_old window current times) ≡ recent window current times
  unfolding drop_old
  drop_old-length current low [] s = refl
  drop_old-length current low (t ∷ rest) s =
      ground (arith, drop_old-length current t rest s.1, all_recent current t rest s.1)

  IsSorted-weaken :
      (low high : ℕ) (times : List ℕ) → low ≤ high → IsSorted high times → IsSorted low times
  IsSorted-weaken low high [] h s = tt
  IsSorted-weaken low high (t ∷ rest) h s = (omega (arith, s.0), s.1)

  drop_old-IsSorted :
      (current low : ℕ) (times : List ℕ)
      → IsSorted low times
      → IsSorted low (drop_old window current times)
  unfolding drop_old
  drop_old-IsSorted current low [] s = tt
  drop_old-IsSorted current low (t ∷ rest) s = elim (Bool-cases (leb (t + window) current)) [
    | inl old ↦ rw old (
        IsSorted-weaken low t (drop_old window current rest) s.0
          (drop_old-IsSorted current t rest s.1))
    | inr new ↦ rw new s
  ]

  abbrev pub none_after : ℕ → List ℕ → Bool
  none_after now times = all (λ t. leb t now) times

  none_after_later :
      (now current : ℕ) (times : List ℕ)
      → none_after now times ≡ true
      → now ≤ current
      → none_after current times ≡ true
  none_after_later now current [] h le = refl
  none_after_later now current (t ∷ rest) h le = ground (arith, none_after_later now current rest)

  drop_old-none_after :
      (current now : ℕ) (times : List ℕ)
      → none_after now times ≡ true
      → now ≤ current
      → none_after current (drop_old window current times) ≡ true
  unfolding drop_old
  drop_old-none_after current now [] h le = refl
  drop_old-none_after current now (t ∷ rest) h le =
      ground (arith, drop_old-none_after current now rest, none_after_later now current rest)

  append-IsSorted :
      (low now : ℕ) (times : List ℕ)
      → IsSorted low times
      → none_after now times ≡ true
      → low ≤ now
      → IsSorted low (times ++ now ∷ [])
  append-IsSorted low now [] s h le = (le, tt)
  append-IsSorted low now (t ∷ rest) s h le =
      (s.0, append-IsSorted t now rest s.1 (ground (arith, h)) (ground (arith, h)))

  append-none_after :
      (now : ℕ) (times : List ℕ)
      → none_after now times ≡ true
      → none_after now (times ++ now ∷ []) ≡ true
  append-none_after now [] h = ground arith
  append-none_after now (t ∷ rest) h = ground (arith, append-none_after now rest)

  recent-append :
      (later now : ℕ) (times : List ℕ)
      → recent window later (times ++ now ∷ [])
        ≡ recent window later times + (if is_recent window later now then 1 else 0)
  recent-append later now [] = ground arith
  recent-append later now (t ∷ rest) = ground (arith, recent-append later now rest)

module _ (window limit : ℕ) (key : String) where
  -- The deque stands for the requests of the key that were admitted, `log`, as far as the window
  -- reaches now and later.
  abbrev pub IsLimited : ℕ → List ℕ → List ℕ → Type 0
  IsLimited now times log =
      IsSorted window 0 times
      × (none_after window now times ≡ true)
      × (length times ≤ limit)
      × ((later : ℕ) → now ≤ later → recent window later log ≡ recent window later times)

  pub limited_bound :
      (now : ℕ) (times log : List ℕ) → IsLimited now times log → recent window now log ≤ limit
  limited_bound now times log (sorted, past, bound, same) =
      ground (arith, same now, length-select-le (is_recent window now) times)

  kept-IsLimited :
      (now current : ℕ) (times log : List ℕ)
      → now ≤ current
      → IsLimited now times log
      → IsLimited current (drop_old window current times) log
  kept-IsLimited now current times log le (sorted, past, bound, same) = (
    drop_old-IsSorted window current 0 times sorted,
    drop_old-none_after window current now times past le,
    ground (
      arith,
      drop_old-length window current 0 times sorted,
      length-select-le (is_recent window current) times,
    ),
    λ later h.
        same later (omega arith) ∙ sym (drop_old-recent window current later 0 times sorted h),
  )

  admitted-IsLimited :
      (now : ℕ) (times log : List ℕ)
      → length times < limit
      → IsLimited now times log
      → IsLimited now (times ++ now ∷ []) (log ++ now ∷ [])
  admitted-IsLimited now times log room (sorted, past, bound, same) = (
    append-IsSorted window 0 now times sorted past (omega arith),
    append-none_after window now times past,
    ground (arith, length-append times (now ∷ [])),
    λ later h. ground (
      arith,
      same later h,
      recent-append window later now times,
      recent-append window later now log,
    ),
  )

  pub check_local-IsLimited :
      (now current : ℕ) (times log : List ℕ)
      → now ≤ current
      → IsLimited now times log
      → let (v, times') = check_local window current limit true times in
        IsLimited current times' (if v.allowed then log ++ current ∷ [] else log)
  unfolding check_local
  check_local-IsLimited now current times log le limited =
      let kept = drop_old window current times in
      let limited' = kept-IsLimited now current times log le limited in
      elim (Bool-cases (ltb (length kept) limit)) [
        | inl room ↦ rw room (admitted-IsLimited current kept log (ground (arith, room)) limited')
        | inr full ↦ rw full limited'
      ]

  pub later-IsLimited :
      (now current : ℕ) (times log : List ℕ)
      → now ≤ current
      → IsLimited now times log
      → IsLimited current times log
  later-IsLimited now current times log le (sorted, past, bound, same) = (
    sorted,
    none_after_later window now current times past le,
    bound,
    λ later h. same later (omega (arith, le, h)),
  )
