-- ===== src/Prelude/Rows.antt =====
-- A table's rows with the state of the world beside them: writes of a row, loops over a query's rows, and
-- what these keep of all rows.
use brokernode.Prelude.{
  All, All-map, Bool, Bool-cases, List, false, if◌then◌else◌, inl, inr, true, ℕ, ◌≡◌,
}
use brokernode.Prelude.Table.{keep, All-keep, All-save_row, for_each, for_each-keeps, save_row}

-- What a job changes.
pub record Work (Row Chain : Type 0) : Type 0 where
  pub rows : List Row
  pub chain : Chain

-- A row's key, the time stamp of a write, and which writes and queries work.
pub record Access (Row : Type 0) : Type 0 where
  pub id_of : Row → ℕ
  pub stamp : Row → Row
  pub update_works : Row → Bool
  pub query_works : ℕ → Bool

module _ {Row Chain : Type 0} (db : Access Row) where
  -- DB.ValidateAndUpdate of a row that is valid.
  unfoldable pub write_row : Row → Work Row Chain → Work Row Chain
  write_row t s =
      let written = record s { rows = save_row db.id_of (db.stamp t) s.rows } in
      if db.update_works (db.stamp t) then written else s

  -- A loop over the rows of a query, whose error ends the function.
  unfoldable pub each_row :
      ℕ → (Row → Bool) → (Row → Work Row Chain → Work Row Chain) → Work Row Chain → Work Row Chain
  each_row query test body s =
      let after = for_each body (keep test s.rows) s in if db.query_works query then after else s

  module _ (P : Row → Type 0) (Q : Chain → Type 0) where
    pub record Rows (s : Work Row Chain) : Type 0 where
      pub held : All P s.rows
      pub chain_held : Q s.chain

    pub write_row-Rows :
        (t : Row) (s : Work Row Chain) → P (db.stamp t) → Rows s → Rows (write_row t s)
    unfolding write_row
    write_row-Rows t s h k = elim (Bool-cases (db.update_works (db.stamp t))) [
      | inl works ↦ rw works (record {
        chain_held = k.chain_held;
        held = All-save_row P db.id_of (db.stamp t) s.rows h k.held;
      })
      | inr fails ↦ rw fails k
    ]

    pub if-Rows : (b : Bool) (x y : Work Row Chain) → Rows x → Rows y → Rows (if b then x else y)
    if-Rows true x y h k = h
    if-Rows false x y h k = k

    pub each_row-Rows :
        (query : ℕ) (test : Row → Bool) (body : Row → Work Row Chain → Work Row Chain)
        (s : Work Row Chain)
        → ((t : Row) (s : Work Row Chain) → P t × (test t ≡ true) → Rows s → Rows (body t s))
        → Rows s
        → Rows (each_row query test body s)
    unfolding each_row
    each_row-Rows query test body s f k =
        if-Rows (db.query_works query) _ s
          (for_each-keeps (λ t. P t × (test t ≡ true)) Rows body (keep test s.rows) s f
            (All-keep P test s.rows k.held) k)
          k

    pub keep-Rows :
        (test : Row → Bool) (s : Work Row Chain)
        → Rows s
        → Rows (record s { rows = keep test s.rows })
    keep-Rows test s k = record {
      chain_held = k.chain_held;
      held = All-map _ _ (keep test s.rows) (λ t h. h.0) (All-keep P test s.rows k.held);
    }
