-- ===== src/Store.antt =====
-- The database as the API sees it: tables keyed by primary key (apps/api/prisma/schema.prisma) and the
-- Prisma client's statements on them. The client is not this repository's code, so it is a parameter
-- of every operation; `IsDocumented` states what its documentation promises, and `documented` is a
-- client of which that holds.
use raise.Prelude.{ℕ, ◌≡◌, refl, Bool, Option, none, some, List, [], ◌∷◌, ◌==◌, if◌then◌else◌}

-- Primary and foreign keys are only ever compared for equality.
abbrev pub Key : Type 0
Key = ℕ

-- A table: the row at each key, and the keys in the order in which the table lists them.
pub record Rows (R : Type 0) : Type 0 where
  pub keys : List Key
  pub at : Key → Option R

abbrev pub put {ℓ} : {A : Type ℓ} → (Key → A) → Key → A → Key → A
put f i a j = if i == j then a else f j

abbrev pub select {ℓ} : {R : Type ℓ} → (R → Bool) → Option R → Option R
select test none = none
select test (some r) = if test r then some r else none

-- Read a whole list of keys.
abbrev pub rows_at : {R : Type 0} → (Key → Option R) → (R → Bool) → List Key → List R
rows_at at test [] = []
rows_at at test (i ∷ is) = elim (select test (at i)) [
  | none ↦ rows_at at test is
  | some r ↦ r ∷ rows_at at test is
]

abbrev count_some {ℓ} : {R : Type ℓ} → Option R → ℕ
count_some none = 0
count_some (some r) = 1

abbrev pub change {ℓ} : {R : Type ℓ} → (R → Bool) → (R → R) → Option R → Option R
change test f none = none
change test f (some r) = some (if test r then f r else r)

abbrev pub discard {ℓ} : {R : Type ℓ} → (R → Bool) → Option R → Option R
discard test none = none
discard test (some r) = if test r then none else some r

-- The statements that the services issue. `where` is the key and a condition on the row.
pub record Client : Type 1 where
  -- `findFirst`, `findUnique`
  pub find_first : {R : Type 0} → Rows R → Key → (R → Bool) → Option R
  -- `findMany`, in the table's order
  pub find_many : {R : Type 0} → Rows R → (R → Bool) → List R
  -- `updateMany`, with the number of rows that were changed
  pub update_many : {R : Type 0} → Rows R → Key → (R → Bool) → (R → R) → ℕ × Rows R
  -- `create` under a unique key; `none` is the violated constraint
  pub create : {R : Type 0} → Rows R → Key → R → Option (Rows R)
  -- `deleteMany`, with the number of rows that were removed
  pub delete_many : {R : Type 0} → Rows R → Key → (R → Bool) → ℕ × Rows R

abbrev create_at : {R : Type 0} → Rows R → Key → R → Option R → Option (Rows R)
create_at t i r none = some (record { keys = i ∷ t.keys; at = put t.at i (some r) })
create_at t i r (some old) = none

-- A client that does what the documentation says.
abbrev pub documented : Client
documented = record {
  find_first = λ {R} t i test. select test (t.at i);
  find_many = λ {R} t test. rows_at t.at test t.keys;
  update_many = λ {R} t i test f.
      (count_some (select test (t.at i)), record t { at = put t.at i (change test f (t.at i)) });
  create = λ {R} t i r. create_at t i r (t.at i);
  delete_many = λ {R} t i test.
      (count_some (select test (t.at i)), record t { at = put t.at i (discard test (t.at i)) });
}

-- What the code relies on: each statement reads or changes the row at its key, if the row meets the
-- condition at that moment, and reports how many rows it met; a key is used once.
pub record IsDocumented (c : Client) : Type 1 where
  pub find_first_lem :
      {R : Type 0} (t : Rows R) (i : Key) (test : R → Bool)
      → c.find_first t i test ≡ select test (t.at i)
  pub find_many_lem :
      {R : Type 0} (t : Rows R) (test : R → Bool) → c.find_many t test ≡ rows_at t.at test t.keys
  pub update_many_lem :
      {R : Type 0} (t : Rows R) (i : Key) (test : R → Bool) (f : R → R)
      → c.update_many t i test f
        ≡ (count_some (select test (t.at i)), record t { at = put t.at i (change test f (t.at i)) })
  pub create_lem :
      {R : Type 0} (t : Rows R) (i : Key) (r : R) → c.create t i r ≡ create_at t i r (t.at i)
  pub delete_many_lem :
      {R : Type 0} (t : Rows R) (i : Key) (test : R → Bool)
      → c.delete_many t i test
        ≡ (count_some (select test (t.at i)), record t { at = put t.at i (discard test (t.at i)) })

pub documented-IsDocumented : IsDocumented documented
documented-IsDocumented = record {
  find_first_lem = λ {R} t i test. refl;
  find_many_lem = λ {R} t test. refl;
  update_many_lem = λ {R} t i test f. refl;
  create_lem = λ {R} t i r. refl;
  delete_many_lem = λ {R} t i test. refl;
}

-- A client is known by what it does, so a proof may compute with `documented`.
pub client-eq : (c : Client) → IsDocumented c → c ≡ documented
client-eq c l = λ k. record {
  find_first = λ {R} t i test. l.find_first_lem t i test k;
  find_many = λ {R} t test. l.find_many_lem t test k;
  update_many = λ {R} t i test f. l.update_many_lem t i test f k;
  create = λ {R} t i r. l.create_lem t i r k;
  delete_many = λ {R} t i test. l.delete_many_lem t i test k;
}
