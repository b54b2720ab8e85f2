-- ===== src/Db/Rows.antt =====
-- Reading rows that were written.
use general_agent_platform.Base.{
  ℕ, ◌≡◌, refl, Bool, true, false, ◌&&◌, none, some, List, [], ◌∷◌, arith, ◌==◌, if◌then◌else◌,
  find, update_where, any, select, Bool-cases, inl, inr,
}
use mathlib.Core.Option

module _ {ℓ} {A : Type ℓ} (key : A → ℕ) (f : A → A) (keeps : (a : A) → key (f a) ≡ key a) where
  -- A row is read back with its columns written; the other rows are as they were.
  pub find-update_where :
      (j k : ℕ) (rows : List A)
      → find (λ a. key a == j) (update_where (λ a. key a == k) f rows) ≡ (
          if j == k
          then Option.map f (find (λ a. key a == j) rows)
          else find (λ a. key a == j) rows)
  find-update_where j k [] = ground arith
  find-update_where j k (a ∷ rows) = ground (arith, keeps a, find-update_where j k rows)

  -- The same for the rows that pass any test.
  pub find-update :
      (j : ℕ) (m : A → Bool) (rows : List A)
      → find (λ a. key a == j) (update_where m f rows)
        ≡ Option.map (λ a. if m a then f a else a) (find (λ a. key a == j) rows)
  find-update j m [] = refl
  find-update j m (a ∷ rows) = ground (arith, keeps a, find-update j m rows)

module _ {ℓ} {A : Type ℓ} (p : A → Bool) (f : A → A) where
  -- A test that the write does not change finds the written row.
  pub find-update_kept :
      (q : A → Bool) (xs : List A)
      → ((x : A) → q (if p x then f x else x) ≡ q x)
      → find q (update_where p f xs) ≡ Option.map (λ x. if p x then f x else x) (find q xs)
  find-update_kept q [] keeps = refl
  find-update_kept q (x ∷ xs) keeps = ground (arith, keeps x, find-update_kept q xs keeps)

-- A row that is found by its key, and passes a further test, is found by both.
pub find-and {ℓ} :
    {A : Type ℓ} (p q : A → Bool) (rows : List A) (a : A)
    → find p rows ≡ some a
    → q a ≡ true
    → find (λ b. p b && q b) rows ≡ some a
find-and p q [] a h t = ground arith
find-and p q (b ∷ rows) a h t = ground (arith, find-and p q rows a)

module _ {ℓ} {A : Type ℓ} (key : A → ℕ) where
  abbrev pub has_key : ℕ → List A → Bool
  has_key k rows = any (λ a. key a == k) rows

  -- No two rows have the same primary key.
  abbrev pub UniqueKeys : List A → Type 0
  UniqueKeys [] = Unit
  UniqueKeys (a ∷ rows) = (has_key (key a) rows ≡ false) × UniqueKeys rows

  -- A test that asks for a key fails on rows that lack it.
  select-absent :
      (k : ℕ) (m : A → Bool) (rows : List A)
      → ((a : A) → m a ≡ true → key a ≡ k)
      → has_key k rows ≡ false
      → select m rows ≡ []
  select-absent k m [] only h = refl
  select-absent k m (a ∷ rows) only h = ground (arith, only a, select-absent k m rows only)

  -- A test that asks for the key of a row, and passes it, selects that row alone.
  pub select_unique :
      (k : ℕ) (m : A → Bool) (rows : List A) (a : A)
      → ((b : A) → m b ≡ true → key b ≡ k)
      → UniqueKeys rows
      → find (λ b. key b == k) rows ≡ some a
      → m a ≡ true
      → select m rows ≡ a ∷ []
  select_unique k m [] a only u h t = ground arith
  select_unique k m (b ∷ rows) a only u h t = elim (Bool-cases (key b == k)) [
    | inl here ↦ ground (arith, select-absent k m rows only)
    | inr later ↦ ground (arith, only b, select_unique k m rows a only u.1)
  ]

  find-absent :
      (k : ℕ) (q : A → Bool) (rows : List A)
      → has_key k rows ≡ false
      → find (λ b. key b == k && q b) rows ≡ none
  find-absent k q [] h = refl
  find-absent k q (b ∷ rows) h = ground (arith, find-absent k q rows)

  update-absent :
      (k : ℕ) (m q : A → Bool) (f : A → A) (rows : List A)
      → ((a : A) → m a ≡ true → key a ≡ k)
      → has_key k rows ≡ false
      → select q (update_where m f rows) ≡ select q rows
  update-absent k m q f [] only h = refl
  update-absent k m q f (a ∷ rows) only h = ground (arith, only a, update-absent k m q f rows only)

  -- Writing a row that fails `q`, before and after, leaves the rows that pass it as they were.
  pub update-unseen :
      (k : ℕ) (m q : A → Bool) (f : A → A) (rows : List A) (a : A)
      → ((b : A) → m b ≡ true → key b ≡ k)
      → UniqueKeys rows
      → find (λ b. key b == k) rows ≡ some a
      → q a ≡ false
      → q (f a) ≡ false
      → select q (update_where m f rows) ≡ select q rows
  update-unseen k m q f [] a only u h qa qf = refl
  update-unseen k m q f (b ∷ rows) a only u h qa qf = elim (Bool-cases (key b == k)) [
    | inl here ↦
        let same : b ≡ a = ground arith in ground (arith, same, update-absent k m q f rows only)
    | inr later ↦ ground (arith, only b, update-unseen k m q f rows a only u.1)
  ]

  -- Writes that keep the keys keep them unique.
  has_key-update :
      (k : ℕ) (m : A → Bool) (f : A → A) (rows : List A)
      → ((a : A) → key (f a) ≡ key a)
      → has_key k (update_where m f rows) ≡ has_key k rows
  has_key-update k m f [] keeps = refl
  has_key-update k m f (a ∷ rows) keeps = ground (arith, keeps a, has_key-update k m f rows keeps)

  pub UniqueKeys-update :
      (m : A → Bool) (f : A → A) (rows : List A)
      → ((a : A) → key (f a) ≡ key a)
      → UniqueKeys rows
      → UniqueKeys (update_where m f rows)
  UniqueKeys-update m f [] keeps u = tt
  UniqueKeys-update m f (a ∷ rows) keeps u =
      ground (
        arith,
        keeps a,
        has_key-update (key a) m f rows keeps,
        UniqueKeys-update m f rows keeps u.1,
      )

  -- With unique keys, what is found by key and by a further test is what is found by key.
  pub find_of_find-and :
      (k : ℕ) (q : A → Bool) (rows : List A) (a : A)
      → UniqueKeys rows
      → find (λ b. key b == k && q b) rows ≡ some a
      → find (λ b. key b == k) rows ≡ some a
  find_of_find-and k q [] a u h = ground arith
  find_of_find-and k q (b ∷ rows) a u h = elim (Bool-cases (key b == k)) [
    | inl here ↦ elim (Bool-cases (q b)) [
      | inl both ↦ ground arith
      | inr not_q ↦ ground (arith, find-absent k q rows)
    ]
    | inr later ↦ ground (arith, find_of_find-and k q rows a u.1)
  ]
